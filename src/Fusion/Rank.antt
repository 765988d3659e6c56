-- ===== src/Fusion/Rank.antt =====
-- `rrf_fuse` of bench/tjs_open_ref.py: reciprocal rank fusion of two ranked lists. A reciprocal is a
-- fixed-point number, 1.0 being `one`; a window that is not positive is 0.
pub mod Laws
use tridb.Base.{ℕ, ◌+◌, ◌/◌, Bool, List, [], ◌∷◌, ◌==◌, leb, if◌then◌else◌, take}
use tridb.Base.Sort.{sort}
use tridb.Fusion.Scores.{Scores, score, put}
use tridb.Fusion.Push.{keys}

abbrev pub windowed : ℕ → List ℕ → List ℕ
windowed window ranked = if window == 0 then ranked else take window ranked

-- `for rank, d in enumerate(ranked, start=rank)`
abbrev pub add_ranks : ℕ → ℕ → ℕ → List ℕ → Scores → Scores
add_ranks one c rank [] scores = scores
add_ranks one c rank (d ∷ rest) scores =
    add_ranks one c (rank + 1) rest (put scores d (score scores d + one / (c + rank)))

-- key=lambda kv: (-kv[1], kv[0])
abbrev pub by_score_id : Scores → ℕ → ℕ → Bool
by_score_id scores i j =
    if score scores i == score scores j then leb i j else leb (score scores j) (score scores i)

unfoldable pub rrf_fuse : ℕ → List ℕ → List ℕ → ℕ → ℕ → ℕ → List ℕ
rrf_fuse one vec_ranked ppr_ranked k c window =
    let vr = windowed window vec_ranked in
    let pr = windowed window ppr_ranked in
    let scores = add_ranks one c 1 pr (add_ranks one c 1 vr []) in
    take k (sort (by_score_id scores) (keys scores))
