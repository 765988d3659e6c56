-- ===== src/Base/Sort.antt =====
-- `sorted(xs, key=...)` over a list of ids: a stable insertion sort by a Boolean order.
use Prim.Native.Nat.{ℕ, zero, suc, ◌≤◌}
use mathlib.Core.Path.{◌≡◌, refl, ◌∙◌}
use mathlib.Core.Logic.{inl, inr}
use mathlib.Core.Bool.{Bool, true, false, ◌||◌}
use mathlib.Core.List.{List, [], ◌∷◌}
use native.Mathlib.Omega.{arith}
use tridb.Base.Tests.{◌==◌, if◌then◌else◌, Bool-cases}
use tridb.Base.Lists.{length, take, drop, All}
use tridb.Base.Sets.{contains, Distinct}

module _ (le : ℕ → ℕ → Bool) where
  unfoldable pub place : ℕ → List ℕ → List ℕ
  place x [] = x ∷ []
  place x (y ∷ ys) = let rest = place x ys in if le x y then x ∷ y ∷ ys else y ∷ rest

  unfoldable pub sort : List ℕ → List ℕ
  unfolding place
  sort [] = []
  sort (x ∷ xs) = place x (sort xs)

  contains-place :
      (x : ℕ) (ys : List ℕ) (a : ℕ) → contains (place x ys) a ≡ (x == a || contains ys a)
  unfolding place
  contains-place x [] a = refl
  contains-place x (y ∷ ys) a = ground (arith, contains-place x ys a)

  pub contains-sort : (xs : List ℕ) (a : ℕ) → contains (sort xs) a ≡ contains xs a
  unfolding sort
  contains-sort [] a = refl
  contains-sort (x ∷ xs) a = ground (arith, contains-place x (sort xs) a, contains-sort xs a)

  place-Distinct :
      (x : ℕ) (ys : List ℕ) → Distinct ys → contains ys x ≡ false → Distinct (place x ys)
  unfolding place
  place-Distinct x [] d h = (refl, tt)
  place-Distinct x (y ∷ ys) d h = elim (Bool-cases (le x y)) [
    | inl yes' ↦ rw yes' (h, d)
    | inr no' ↦ rw no' (
        let other : (x == y) ≡ false = ground arith in
        (contains-place x ys y ∙ rw other d.0, place-Distinct x ys d.1 (ground arith)))
  ]

  pub sort-Distinct : (xs : List ℕ) → Distinct xs → Distinct (sort xs)
  unfolding sort
  sort-Distinct [] d = tt
  sort-Distinct (x ∷ xs) d =
      place-Distinct x (sort xs) (sort-Distinct xs d.1) (contains-sort xs x ∙ d.0)

  length-place : (x : ℕ) (ys : List ℕ) → length (place x ys) ≡ suc (length ys)
  unfolding place
  length-place x [] = refl
  length-place x (y ∷ ys) = ground (arith, length-place x ys)

  pub length-sort : (xs : List ℕ) → length (sort xs) ≡ length xs
  unfolding sort
  length-sort [] = refl
  length-sort (x ∷ xs) = ground (arith, length-place x (sort xs), length-sort xs)

-- The keys fall, or stay, along the list.
abbrev pub Falling : (ℕ → ℕ) → List ℕ → Type 0
Falling w [] = Unit
Falling w (x ∷ xs) = All (λ y. w y ≤ w x) xs × Falling w xs

All-weaker :
    (w : ℕ → ℕ) (a b : ℕ) (xs : List ℕ)
    → w a ≤ w b
    → All (λ y. w y ≤ w a) xs
    → All (λ y. w y ≤ w b) xs
All-weaker w a b [] h hs = tt
All-weaker w a b (x ∷ xs) h hs = (omega arith, All-weaker w a b xs h hs.1)

pub at-All :
    (w : ℕ → ℕ) (b : ℕ) (xs : List ℕ) (a : ℕ)
    → All (λ y. w y ≤ b) xs
    → contains xs a ≡ true
    → w a ≤ b
at-All w b [] a h c = cc
at-All w b (x ∷ xs) a h c = ground (arith, at-All w b xs a h.1, h.0)

module _ (le : ℕ → ℕ → Bool) (w : ℕ → ℕ) (first : (x y : ℕ) → le x y ≡ true → w y ≤ w x)
    (second : (x y : ℕ) → le x y ≡ false → w x ≤ w y) where
  All-place :
      (x b : ℕ) (ys : List ℕ) → w x ≤ b → All (λ y. w y ≤ b) ys → All (λ y. w y ≤ b) (place le x ys)
  unfolding place
  All-place x b [] h hs = (h, tt)
  All-place x b (y ∷ ys) h hs = elim (Bool-cases (le x y)) [
    | inl yes' ↦ rw yes' (h, hs)
    | inr no' ↦ rw no' (hs.0, All-place x b ys h hs.1)
  ]

  Falling-place : (x : ℕ) (ys : List ℕ) → Falling w ys → Falling w (place le x ys)
  unfolding place
  Falling-place x [] h = (tt, tt)
  Falling-place x (y ∷ ys) h = elim (Bool-cases (le x y)) [
    | inl yes' ↦ rw yes' ((first x y yes', All-weaker w y x ys (first x y yes') h.0), h)
    | inr no' ↦ rw no' (All-place x (w y) ys (second x y no') h.0, Falling-place x ys h.1)
  ]

  pub Falling-sort : (xs : List ℕ) → Falling w (sort le xs)
  unfolding sort
  Falling-sort [] = tt
  Falling-sort (x ∷ xs) = Falling-place x (sort le xs) (Falling-sort xs)

pub contains-take_or_drop :
    (k : ℕ) (xs : List ℕ) (a : ℕ)
    → contains xs a ≡ (contains (take k xs) a || contains (drop k xs) a)
contains-take_or_drop zero xs a = refl
contains-take_or_drop (suc k) [] a = refl
contains-take_or_drop (suc k) (x ∷ xs) a = ground (arith, contains-take_or_drop k xs a)

-- Nothing that was cut off has a larger key than what was kept.
pub take-dominates :
    (w : ℕ → ℕ) (k : ℕ) (xs : List ℕ) (a b : ℕ)
    → Falling w xs
    → contains (take k xs) a ≡ true
    → contains (drop k xs) b ≡ true
    → w b ≤ w a
take-dominates w zero xs a b f p q = cc
take-dominates w (suc k) [] a b f p q = cc
take-dominates w (suc k) (x ∷ xs) a b f p q = elim (Bool-cases (x == a)) [
  | inl here ↦ ground (arith, at-All w (w x) xs b f.0, contains-take_or_drop k xs b)
  | inr there ↦ take-dominates w k xs a b f.1 (ground arith) q
]
