-- ===== src/Fusion/Merge/Answer.antt =====
-- What an answer of `nra_fr_merge` of bench/tjs_open_ref.py must be, at the early stop and in the
-- final order.
use mathlib.Core.Path.{subst}
use native.Mathlib.Nat.{le_trans}
use tridb.Base.{
  ℕ, zero, suc, ◌+◌, ◌≤◌, ◌≡◌, refl, ap, true, false, ◌||◌, some, List, [], ◌∷◌, ◌==◌, leb, length,
  arith, contains, Bool-cases, Option-cases, ◌⊎◌, inl, inr, take, drop, length-take,
}
use tridb.Base.Sort.{
  sort, contains-sort, Falling, Falling-sort, at-All, contains-take_or_drop, take-dominates,
}
use tridb.Fusion.Scores.{Scores}
use tridb.Fusion.Merge.{
  Seen, ids, Frontier, worst, best, by_worst, by_worst_id, kth, largest_best, settled,
}
use tridb.Fusion.Merge.Bounds.{
  partial_of-unseen, has, final, IsBounded, worst-le-final, final-le-best,
}

-- Nothing left out has a higher score than something returned.
abbrev pub Top : (ℕ → ℕ) → List ℕ → Type 0
Top w res = (a b : ℕ) → contains res a ≡ true → contains res b ≡ false → w b ≤ w a

contains-kth : (k c : ℕ) (xs : List ℕ) → kth k xs ≡ some c → contains xs c ≡ true
contains-kth k c [] h = cc
contains-kth zero c (x ∷ []) h = ground arith
contains-kth zero c (x ∷ y ∷ rest) h = ground (arith, contains-kth zero c (y ∷ rest))
contains-kth (suc zero) c (x ∷ rest) h = ground arith
contains-kth (suc (suc k)) c (x ∷ rest) h = ground (arith, contains-kth (suc k) c rest)

-- The k-th is the least of the first k.
kth-least :
    (w : ℕ → ℕ) (k c a : ℕ) (xs : List ℕ)
    → Falling w xs
    → kth (suc k) xs ≡ some c
    → contains (take (suc k) xs) a ≡ true
    → w c ≤ w a
kth-least w k c a [] f h m = cc
kth-least w zero c a (x ∷ rest) f h m = ground arith
kth-least w (suc k) c a (x ∷ rest) f h m = elim (Bool-cases (x == a)) [
  | inl here ↦
      ground (arith, at-All w (w x) rest c f.0 (contains-kth (suc k) c rest (ground arith)))
  | inr there ↦ kth-least w k c a rest f.1 (ground arith) (ground arith)
]

best-le-largest :
    (f : Frontier) (s : Seen) (xs : List ℕ) (b : ℕ)
    → contains xs b ≡ true
    → best f s b ≤ largest_best f s xs
best-le-largest f s [] b h = cc
best-le-largest f s (x ∷ xs) b h = elim (Bool-cases (x == b)) [
  | inl here ↦ ground arith
  | inr there ↦ ground (arith, best-le-largest f s xs b)
]

best-unseen :
    (f : Frontier) (s : Seen) (b : ℕ) → contains (ids s) b ≡ false → best f s b ≡ f.vec + f.ppr
best-unseen f s b h = ground (arith, partial_of-unseen s b h)

Falling-by_worst : (s : Seen) (xs : List ℕ) → Falling (worst s) (sort (by_worst s) xs)
Falling-by_worst s xs =
    Falling-sort (by_worst s) (worst s) (λ x y h. ground arith) (λ x y h. ground arith) xs

Falling-by_worst_id : (s : Seen) (xs : List ℕ) → Falling (worst s) (sort (by_worst_id s) xs)
Falling-by_worst_id s xs =
    Falling-sort (by_worst_id s) (worst s) (λ x y h. ground arith) (λ x y h. ground arith) xs

-- What the stop test checked.
settled_facts :
    (k : ℕ) (f : Frontier) (s : Seen) (top : List ℕ)
    → settled (suc k) f s ≡ some top
    → (c : ℕ) × (kth (suc k) (sort (by_worst s) (ids s)) ≡ some c)
      × (top ≡ take (suc k) (sort (by_worst s) (ids s)))
      × (largest_best f s (drop (suc k) (sort (by_worst s) (ids s))) ≤ worst s c)
      × (f.vec + f.ppr ≤ worst s c)
      × (suc k ≤ length (sort (by_worst s) (ids s)))
unfolding settled
settled_facts k f s top h = elim (Option-cases (kth (suc k) (sort (by_worst s) (ids s)))) [
  | inl gone ↦ absurd (ground arith)
  | inr (c, there) ↦ (c, there, ground arith, ground arith, ground arith, ground arith)
]

-- Whatever the k-th worst score bounds from above is no better than what was kept.
below_kept :
    (k c a b : ℕ) (vs ps : Scores) (s : Seen)
    → kth (suc k) (sort (by_worst s) (ids s)) ≡ some c
    → final vs ps s b ≤ worst s c
    → contains (take (suc k) (sort (by_worst s) (ids s))) a ≡ true
    → final vs ps s b ≤ final vs ps s a
below_kept k c a b vs ps s at low m = le_trans low (
    le_trans
      (kth-least (worst s) k c a (sort (by_worst s) (ids s)) (Falling-by_worst s (ids s)) at m)
      (worst-le-final vs ps s a))

Top-settled :
    (k : ℕ) (vs ps : Scores) (f : Frontier) (s : Seen) (top : List ℕ)
    → IsBounded vs ps f s
    → settled (suc k) f s ≡ some top
    → Top (final vs ps s) top × (length top ≡ suc k)
Top-settled k vs ps f s top bound h =
    let (c, at, is_top, outside, fresh, long) = settled_facts k f s top h in
    let worsts = sort (by_worst s) (ids s) in
    (
      λ a b inside out.
          below_kept k c a b vs ps s at
            (le_trans (final-le-best vs ps f s b bound) (elim (Bool-cases (contains (ids s) b)) [
              | inl seen_b ↦
                  le_trans
                    (best-le-largest f s (drop (suc k) worsts) b (
                      ground (
                        arith,
                        contains-take_or_drop (suc k) worsts b,
                        contains-sort (by_worst s) (ids s) b,
                      )))
                    outside
              | inr new_b ↦ omega (arith, best-unseen f s b new_b)
            ]))
            (subst (λ (l : List ℕ). contains l a ≡ true) is_top inside),
      omega (arith, ap length is_top, length-take (suc k) worsts),
    )

-- The answer is on top, and has k ids unless it has every id of the streams.
pub record IsAnswer (k : ℕ) (vs ps : Scores) (s : Seen) (res : List ℕ) : Type 0 where
  pub top : Top (final vs ps s) res
  pub full :
      (length res ≡ k)
      ⊎ ((i : ℕ) → (contains (ids s) i || (has vs i || has ps i)) ≡ true → contains res i ≡ true)

pub IsAnswer-settled :
    (k : ℕ) (vs ps : Scores) (f : Frontier) (s : Seen) (top : List ℕ)
    → IsBounded vs ps f s
    → settled (suc k) f s ≡ some top
    → IsAnswer (suc k) vs ps s top
IsAnswer-settled k vs ps f s top b h =
    let (t, long) = Top-settled k vs ps f s top b h in record { top = t; full = inl long }

pub contains-take_all :
    (k : ℕ) (xs : List ℕ) (a : ℕ) → length xs ≤ k → contains (take k xs) a ≡ contains xs a
contains-take_all zero [] a h = refl
contains-take_all zero (x ∷ xs) a h = absurd (omega arith)
contains-take_all (suc k) [] a h = refl
contains-take_all (suc k) (x ∷ xs) a h = ground (arith, contains-take_all k xs a)

final-drained : (s : Seen) (j : ℕ) → final [] [] s j ≡ worst s j
final-drained s j = ground arith

worst-new : (s : Seen) (j : ℕ) → contains (ids s) j ≡ false → worst s j ≡ 0
worst-new s j h = ground (arith, partial_of-unseen s j h)

-- The final order, once both streams are drained.
pub IsAnswer-drained :
    (k : ℕ) (s : Seen) → IsAnswer k [] [] s (take k (sort (by_worst_id s) (ids s)))
IsAnswer-drained k s =
    let sorted = sort (by_worst_id s) (ids s) in
    let kept = contains-sort (by_worst_id s) (ids s) in
    record {
      top = λ a b inside out. elim (Bool-cases (contains (ids s) b)) [
        | inl seen_b ↦ omega (
          arith,
          final-drained s a,
          final-drained s b,
          take-dominates (worst s) k sorted a b (Falling-by_worst_id s (ids s)) inside
              (ground (arith, contains-take_or_drop k sorted b, kept b)),
        )
        | inr new_b ↦ omega (arith, final-drained s b, worst-new s b new_b)
      ];
      full = elim (Bool-cases (leb k (length sorted))) [
        | inl many ↦ inl (ground (arith, length-take k sorted))
        | inr few ↦ inr (λ i m. ground (arith, contains-take_all k sorted i, kept i))
      ];
    }
