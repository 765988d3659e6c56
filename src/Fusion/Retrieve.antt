-- ===== src/Fusion/Retrieve.antt =====
-- `retrieve` of bench/tjs_open_ref.py: the push, the two streams of normalised scores, the merge and
-- rank fusion. What numpy finds near the query, ids with their squared distances, is an argument,
-- and so are the seeds' weights; the seeds, which the result repeats, are left out of it.
pub mod Streams
pub mod Answer
use tridb.Base.{
  ℕ, ◌+◌, ◌-◌, ◌*◌, ◌/◌, Option, none, some, List, [], ◌∷◌, leb, if◌then◌else◌, length, take, min,
  max,
}
use tridb.Base.Sort.{sort}
use tridb.Fusion.Scores.{Scores, score}
use tridb.Fusion.Push.{keys, bounded_push_ppr}
use tridb.Fusion.Merge.{nra_fr_merge}
use tridb.Fusion.Rank.{rrf_fuse}

-- {k: f(v) for k, v in d.items()}
abbrev pub each : (ℕ → ℕ) → Scores → Scores
each f [] = []
each f ((i, v) ∷ rest) = (i, f v) ∷ each f rest

-- min(vals) and max(vals), of a first value and the others.
abbrev pub lowest : ℕ → Scores → ℕ
lowest x [] = x
lowest x ((i, v) ∷ rest) = lowest (min x v) rest

abbrev pub highest : ℕ → Scores → ℕ
highest x [] = x
highest x ((i, v) ∷ rest) = highest (max x v) rest

-- _minmax_norm, of scores that are not negative.
unfoldable pub minmax_norm : ℕ → Scores → Scores
minmax_norm one [] = []
minmax_norm one ((i, v) ∷ rest) =
    let lo = lowest v rest in
    let hi = highest v rest in
    if leb hi lo
    then each (λ x. one) ((i, v) ∷ rest)
    else each (λ x. (x - lo) * one / (hi - lo)) ((i, v) ∷ rest)

-- _minmax_norm of the negated distances, whose least is that of the largest distance.
unfoldable pub minmax_norm_negated : ℕ → Scores → Scores
minmax_norm_negated one [] = []
minmax_norm_negated one ((i, d) ∷ rest) =
    let near = lowest d rest in
    let far = highest d rest in
    if leb far near
    then each (λ x. one) ((i, d) ∷ rest)
    else each (λ x. (far - x) * one / (far - near)) ((i, d) ∷ rest)

abbrev pub paired : Scores → List ℕ → Scores
paired m [] = []
paired m (i ∷ rest) = (i, score m i) ∷ paired m rest

-- sorted(m.items(), key=lambda kv: -kv[1])
unfoldable pub by_score : Scores → Scores
by_score m = paired m (sort (λ i j. leb (score m j) (score m i)) (keys m))

-- vector_ranked
unfoldable pub vector_ranked : ℕ → Scores → Scores
unfolding by_score minmax_norm_negated
vector_ranked one nearest = by_score (minmax_norm_negated one nearest)

pub record Retrieved : Type 0 where
  pub nodes_examined : ℕ
  pub candidates_examined : ℕ
  pub vector_only : List ℕ
  pub ppr_only : List ℕ
  pub fr_fused : List ℕ
  pub rrf_fused : List ℕ
  pub n_reach : ℕ

-- The streams and what is read from them; rank fusion has c = 60 and no window.
unfoldable pub fused : ℕ → Scores → ℕ → Scores → ℕ → Retrieved
unfolding vector_ranked by_score minmax_norm
fused one nearest k reserves nodes_examined =
    let ppr_stream = by_score (minmax_norm one reserves) in
    let vec_stream = vector_ranked one nearest in
    let (fr_ids, examined) = nra_fr_merge vec_stream ppr_stream k in
    record {
      nodes_examined = nodes_examined;
      candidates_examined = examined;
      vector_only = take k (keys vec_stream);
      ppr_only = take k (keys ppr_stream);
      fr_fused = fr_ids;
      rrf_fused = rrf_fuse one (keys vec_stream) (keys ppr_stream) k 60 0;
      n_reach = length reserves;
    }

unfoldable pub retrieve : (ℕ → List ℕ) → ℕ → ℕ → ℕ → ℕ → Scores → Scores → ℕ → Option Retrieved
unfolding fused
retrieve adj one alpha r_max fuel weights nearest k =
    elim (bounded_push_ppr adj alpha r_max fuel weights) [
      | none ↦ none
      | some (reserves, nodes_examined) ↦ some (fused one nearest k reserves nodes_examined)
    ]
