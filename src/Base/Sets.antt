-- ===== src/Base/Sets.antt =====
-- A Python set of numbers, as the list of its members in the order of insertion.
use Prim.Native.Nat.{ℕ, ◌+◌, ◌≤◌}
use mathlib.Core.Path.{◌≡◌, refl}
use mathlib.Core.Logic.{inl, inr}
use mathlib.Core.Bool.{Bool, true, false, ◌||◌}
use mathlib.Core.List.{List, [], ◌∷◌, ◌++◌}
use native.Mathlib.Omega.{arith}
use tridb.Base.Tests.{◌==◌, if◌then◌else◌, Bool-cases}
use tridb.Base.Lists.{length, length-append}

-- `a in xs`.
abbrev pub contains : List ℕ → ℕ → Bool
contains [] a = false
contains (x ∷ xs) a = x == a || contains xs a

-- `xs.add(a)`.
unfoldable pub insert : List ℕ → ℕ → List ℕ
insert xs a = if contains xs a then xs else xs ++ a ∷ []

-- No number stands twice.
abbrev pub Distinct : List ℕ → Type 0
Distinct [] = Unit
Distinct (x ∷ xs) = (contains xs x ≡ false) × Distinct xs

pub insert_known : (xs : List ℕ) (a : ℕ) → contains xs a ≡ true → insert xs a ≡ xs
unfolding insert
insert_known xs a h = rw h refl

pub contains-append :
    (xs ys : List ℕ) (a : ℕ) → contains (xs ++ ys) a ≡ (contains xs a || contains ys a)
contains-append [] ys a = refl
contains-append (x ∷ xs) ys a = ground (arith, contains-append xs ys a)

pub contains-insert : (xs : List ℕ) (a b : ℕ) → contains (insert xs a) b ≡ (a == b || contains xs b)
unfolding insert
contains-insert xs a b = ground (arith, contains-append xs (a ∷ []) b)

pub Distinct-concat :
    (xs : List ℕ) (a : ℕ) → Distinct xs → contains xs a ≡ false → Distinct (xs ++ a ∷ [])
Distinct-concat [] a d h = (refl, tt)
Distinct-concat (x ∷ xs) a d h =
    (ground (arith, contains-append xs (a ∷ []) x), Distinct-concat xs a d.1 (ground arith))

pub insert-Distinct : (xs : List ℕ) (a : ℕ) → Distinct xs → Distinct (insert xs a)
unfolding insert
insert-Distinct xs a d = elim (Bool-cases (contains xs a)) [
  | inl old ↦ rw old d
  | inr new ↦ rw new (Distinct-concat xs a d new)
]

pub length-insert : (xs : List ℕ) (a : ℕ) → length (insert xs a) ≤ length xs + 1
unfolding insert
length-insert xs a = ground (arith, length-append xs (a ∷ []))
