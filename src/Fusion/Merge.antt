-- ===== src/Fusion/Merge.antt =====
-- `nra_fr_merge` of bench/tjs_open_ref.py: the merge of two score streams, each of falling scores,
-- that stops as soon as its bounds allow. Scores are fixed-point numbers that are not negative, as
-- `_minmax_norm` leaves them.
pub mod Bounds
pub mod Answer
pub mod Correct
use tridb.Base.{
  ℕ, zero, suc, ◌+◌, ◌-◌, Bool, true, false, ◌&&◌, Option, none, some, List, [], ◌∷◌, ◌==◌, leb,
  ltb, if◌then◌else◌, length, take, drop, max,
}
use tridb.Base.Sort.{sort}
use tridb.Fusion.Scores.{Scores}

-- The partial scores of one candidate: `[None, None]` at first.
pub record Partial : Type 0 where
  pub vec : Option ℕ
  pub ppr : Option ℕ

abbrev pub unseen : Partial
unseen = record { vec = none; ppr = none }

-- `seen`, in the order in which the candidates came.
abbrev pub Seen : Type 0
Seen = List (ℕ × Partial)

abbrev pub ids : Seen → List ℕ
ids [] = []
ids ((i, p) ∷ rest) = i ∷ ids rest

abbrev pub partial_of : Seen → ℕ → Partial
partial_of [] i = unseen
partial_of ((j, p) ∷ rest) i = if j == i then p else partial_of rest i

-- `seen.setdefault(i, [None, None])` and then the write of one leg.
abbrev pub change : Seen → ℕ → (Partial → Partial) → Seen
change [] i f = (i, f unseen) ∷ []
change ((j, p) ∷ rest) i f = if j == i then (j, f p) ∷ rest else (j, p) ∷ change rest i f

abbrev pub see_vec : Seen → ℕ → ℕ → Seen
see_vec s i x = change s i (λ p. record p { vec = some x })

abbrev pub see_ppr : Seen → ℕ → ℕ → Seen
see_ppr s i x = change s i (λ p. record p { ppr = some x })

abbrev pub known : Option ℕ → ℕ
known none = 0
known (some x) = x

abbrev pub open_leg : Option ℕ → ℕ → ℕ
open_leg none ceiling = ceiling
open_leg (some x) ceiling = 0

-- The frontier ceilings of the two legs.
pub record Frontier : Type 0 where
  pub vec : ℕ
  pub ppr : ℕ

-- best_worst(cid)
abbrev pub worst : Seen → ℕ → ℕ
worst s i = known (partial_of s i).vec + known (partial_of s i).ppr

abbrev pub best : Frontier → Seen → ℕ → ℕ
best f s i = worst s i + (open_leg (partial_of s i).vec f.vec + open_leg (partial_of s i).ppr f.ppr)

-- sorted(seen.items(), key=lambda kv: -best_worst(kv[0])[1])
abbrev pub by_worst : Seen → ℕ → ℕ → Bool
by_worst s i j = leb (worst s j) (worst s i)

-- sorted(..., key=lambda kv: (-best_worst(kv[0])[1], kv[0]))
abbrev pub by_worst_id : Seen → ℕ → ℕ → Bool
by_worst_id s i j = if worst s i == worst s j then leb i j else leb (worst s j) (worst s i)

-- `worsts[k - 1]`; the index -1 is the last.
abbrev pub kth : ℕ → List ℕ → Option ℕ
kth k [] = none
kth zero (x ∷ []) = some x
kth zero (x ∷ y ∷ rest) = kth zero (y ∷ rest)
kth (suc zero) (x ∷ rest) = some x
kth (suc (suc k)) (x ∷ rest) = kth (suc k) rest

abbrev pub largest_best : Frontier → Seen → List ℕ → ℕ
largest_best f s [] = 0
largest_best f s (i ∷ rest) = max (best f s i) (largest_best f s rest)

-- The stop test; the answer when it passes.
unfoldable pub settled : ℕ → Frontier → Seen → Option (List ℕ)
settled k f s =
    let worsts = sort (by_worst s) (ids s) in
    if leb k (length worsts)
    then (elim (kth k worsts) [
      | none ↦ none
      | some c ↦
          if leb (max (largest_best f s (drop k worsts)) (f.vec + f.ppr)) (worst s c)
          then some (take k worsts)
          else none
    ])
    else none

-- `frontier[leg] = 0.0` once the leg is drained.
abbrev pub ceiling : Scores → ℕ → ℕ
ceiling [] x = 0
ceiling (_ ∷ _) x = x

abbrev pub Answer : Type 0
Answer = List ℕ × ℕ

-- After a pull: the answer, or the rest of the loop.
abbrev pub or_go_on : ℕ → Frontier → Seen → Answer → Answer
or_go_on k f s rest = elim (settled k f s) [ some top ↦ (top, length (ids s)) | none ↦ rest ]

abbrev pub frontier_after : Scores → Scores → ℕ → ℕ → Frontier
frontier_after vs ps x y = record { vec = ceiling vs x; ppr = ceiling ps y }

-- The loop over what is left of the streams; each round pulls from the leg with the higher score.
-- When both are drained the final order decides.
unfoldable pub merge_loop : ℕ → Scores → Scores → Frontier → Seen → Answer
unfolding settled
merge_loop k [] [] f s = (take k (sort (by_worst_id s) (ids s)), length (ids s))
merge_loop k ((i, x) ∷ vs) [] f s =
    let s' = see_vec s i x in
    let f' = frontier_after vs [] x f.ppr in
    let rest = merge_loop k vs [] f' s' in or_go_on k f' s' rest
merge_loop k [] ((j, y) ∷ ps) f s =
    let s' = see_ppr s j y in
    let f' = frontier_after [] ps f.vec y in
    let rest = merge_loop k [] ps f' s' in or_go_on k f' s' rest
merge_loop k ((i, x) ∷ vs) ((j, y) ∷ ps) f s = elim (leb y x) [
  | true ↦
      let s' = see_vec s i x in
      let f' = frontier_after vs ((j, y) ∷ ps) x f.ppr in
      let rest = merge_loop k vs ((j, y) ∷ ps) f' s' in or_go_on k f' s' rest
  | false ↦
      let s' = see_ppr s j y in
      let f' = frontier_after ((i, x) ∷ vs) ps f.vec y in
      let rest = merge_loop k ((i, x) ∷ vs) ps f' s' in or_go_on k f' s' rest
]

abbrev pub first_score : Scores → ℕ
first_score [] = 0
first_score ((i, x) ∷ rest) = x

unfoldable pub nra_fr_merge : Scores → Scores → ℕ → Answer
unfolding merge_loop
nra_fr_merge vec_stream ppr_stream k =
    merge_loop k vec_stream ppr_stream
      (record { vec = first_score vec_stream; ppr = first_score ppr_stream }) []
