-- ===== src/Fusion/Tests.antt =====
-- The theorems on bench/tjs_open_ref.py on a small graph and on two short streams, and runs there.
use tridb.Base.{
  ℕ, zero, suc, ◌+◌, ◌*◌, ◌≤◌, ◌<◌, ◌≡◌, refl, ◌⊎◌, ◌||◌, true, some, List, [], ◌∷◌, length,
  contains, arith,
}
use tridb.Fusion.Scores.{Scores, score, total}
use tridb.Fusion.Push.{State, start, loop, bounded_push_ppr}
use tridb.Fusion.Push.Mass.{quantum}
use tridb.Fusion.Push.Bound.{bounded_push_ppr-total, loop_settles}
use tridb.Fusion.Merge.{nra_fr_merge}
use tridb.Fusion.Merge.Bounds.{has, Stream}
use tridb.Fusion.Merge.Answer.{Top}
use tridb.Fusion.Merge.Correct.{fused_score, nra_fr_merge_top}

-- A path 0 - 1 - 2 and nodes without neighbours.
abbrev path : ℕ → List ℕ
path zero = 1 ∷ []
path (suc zero) = 0 ∷ 2 ∷ []
path (suc (suc zero)) = 1 ∷ []
path _ = []

abbrev seeds : Scores
seeds = (0, 1000) ∷ []

degree_path : (u : ℕ) → length (path u) ≤ 2
degree_path u = ground arith

bounded_push_ppr-total_example :
    (reserves : Scores) × (examined : ℕ) × (bounded_push_ppr path 150 100 2001 seeds
      ≡ some (reserves, examined))
    × (total reserves ≤ 1000)
    × (examined * quantum path 150 100 ≤ 1 * quantum path 150 100 + 2 * total reserves)
bounded_push_ppr-total_example =
    bounded_push_ppr-total path 150 100 1000 2 seeds 2001 (omega arith) (omega arith) degree_path
      (omega arith) (omega arith)

loop_settles_example :
    (t : State) × (loop path 150 100 2001 (start seeds) ≡ some t)
    × ((v : ℕ) → score t.residue v < 100)
    × (total t.residue + total t.reserve ≤ 1000)
loop_settles_example =
    loop_settles path 150 100 1000 2 seeds 2001 (omega arith) (omega arith) degree_path
      (omega arith) (omega arith) (omega arith)

-- The bridge 7 leads on the graph leg only.
abbrev vec_stream : Scores
vec_stream = (1, 90) ∷ (2, 60) ∷ (3, 10) ∷ []

abbrev ppr_stream : Scores
ppr_stream = (7, 80) ∷ (2, 50) ∷ (9, 5) ∷ []

Stream-vec_stream : Stream vec_stream
Stream-vec_stream =
    (refl, λ j. ground arith, (refl, λ j. ground arith, (refl, λ j. ground arith, tt)))

Stream-ppr_stream : Stream ppr_stream
Stream-ppr_stream =
    (refl, λ j. ground arith, (refl, λ j. ground arith, (refl, λ j. ground arith, tt)))

nra_fr_merge_top_example :
    let top = (nra_fr_merge vec_stream ppr_stream 2).0 in
    Top (fused_score vec_stream ppr_stream) top
    × ((length top ≡ 2)
        ⊎ ((i : ℕ) → (has vec_stream i || has ppr_stream i) ≡ true → contains top i ≡ true))
nra_fr_merge_top_example =
    nra_fr_merge_top vec_stream ppr_stream 2 Stream-vec_stream Stream-ppr_stream (omega arith)

abbrev nearest : Scores
nearest = (1, 4) ∷ (2, 9) ∷ []
