-- ===== src/Fusion/Retrieve/Answer.antt =====
-- `retrieve` returns, and its merged answer is the best by the two normalised scores.
use tridb.Base.{ℕ, ◌+◌}
use tridb.Fusion.Scores.{Scores, score}
use tridb.Fusion.Retrieve.{minmax_norm, minmax_norm_negated}

-- The sum of an id's two normalised scores, of which a missing one counts 0.
abbrev pub normalised_sum : ℕ → Scores → Scores → ℕ → ℕ
normalised_sum one nearest reserves i =
    score (minmax_norm_negated one nearest) i + score (minmax_norm one reserves) i
