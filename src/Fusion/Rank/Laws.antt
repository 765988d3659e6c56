-- ===== src/Fusion/Rank/Laws.antt =====
-- The ids that rank fusion of bench/tjs_open_ref.py returns, by their reciprocal ranks.
use tridb.Base.{ℕ, ◌+◌, ◌/◌, List, [], ◌∷◌, ◌==◌, if◌then◌else◌}
use tridb.Fusion.Scores.{Scores}
use tridb.Fusion.Rank.{windowed}

-- The sum of 1 / (c + rank) over an id's places in a list whose first rank is `rank`.
abbrev pub leg_score : ℕ → ℕ → ℕ → List ℕ → ℕ → ℕ
leg_score one c rank [] i = 0
leg_score one c rank (d ∷ rest) i =
    (if d == i then one / (c + rank) else 0) + leg_score one c (rank + 1) rest i

-- The score by which rank fusion orders: each list's reciprocal ranks, within the window.
abbrev pub fused_rank : ℕ → List ℕ → List ℕ → ℕ → ℕ → ℕ → ℕ
fused_rank one vec_ranked ppr_ranked c window i =
    leg_score one c 1 (windowed window vec_ranked) i
    + leg_score one c 1 (windowed window ppr_ranked) i
