-- ===== src/Metrics/Target.antt =====
-- The targets of bench/metrics.py, SM1_MIN_REDUCTION to SM5_REQUIRED_ATOMICITY.
use tridb.Base.Ratio.{Ratio, ratio}

abbrev pub min_reduction : Ratio
min_reduction = ratio 5 1

abbrev pub min_win_fraction : Ratio
min_win_fraction = ratio 4 5

abbrev pub max_corpus_fraction : Ratio
max_corpus_fraction = ratio 1 4

abbrev pub min_parity : Ratio
min_parity = ratio 99 100

abbrev pub required_atomicity : Ratio
required_atomicity = ratio 1 1
