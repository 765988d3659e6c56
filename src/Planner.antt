-- ===== src/Planner.antt =====
-- src/planner/join_order_ref.py: the choice between filter-first and vector-first.
-- A selectivity is an exact fraction. A threshold is an integer count of `unit`-ths, so 1000 is the
-- default 0.10; the mean out-degree, which no function reads, is in the same unit.
pub mod Laws
pub mod Tests
use tridb.Base.{ℕ, ◌*◌, ◌≡◌, Bool, ◌==◌, leb, if◌then◌else◌, min}
use tridb.Base.Int.{ℤ, pos, negsuc, floor_zero}
use tridb.Base.Ratio.{Ratio, ratio, ratio_one, ratio_leb}
use tridb.Base.Result.{Result, ok, raised, value_error, ◌>>=◌}

abbrev pub unit : ℕ
unit = 10_000

pub record LegStats : Type 0 where
  pub rel_filter_matches : ℕ
  pub table_size : ℕ
  pub avg_out_degree : ℕ
  pub vector_topk : ℕ

-- The strings "filter_first" and "vector_first", and any other.
pub data Order : Type 0 where
  filter_first vector_first unknown : Order

unfoldable pub relational_selectivity : LegStats → Ratio
relational_selectivity stats =
    if stats.table_size == 0 then ratio_one else ratio stats.rel_filter_matches stats.table_size

-- min(1.0, max(0.0, threshold))
abbrev pub clamp_threshold : ℤ → ℕ
clamp_threshold threshold = min unit (floor_zero threshold)

unfoldable pub choose_order : LegStats → ℤ → Order
unfolding relational_selectivity
choose_order stats threshold =
    let selectivity = relational_selectivity stats in
    if ratio_leb selectivity (ratio (clamp_threshold threshold) unit)
    then filter_first
    else vector_first

unfoldable pub estimated_intermediate_rows : LegStats → Order → Result ℕ
estimated_intermediate_rows stats filter_first = ok (min stats.rel_filter_matches stats.vector_topk)
estimated_intermediate_rows stats vector_first = ok (stats.vector_topk * 50)
estimated_intermediate_rows stats unknown = raised value_error

-- The rationale is one of two texts, told apart by the order; it prints the selectivity and this
-- threshold.
pub record Explanation : Type 0 where
  pub order : Order
  pub selectivity : Ratio
  pub intermediate_rows : ℕ
  pub rationale_order : Order
  pub rationale_threshold : ℕ

unfoldable pub explain : LegStats → ℤ → Result Explanation
explain stats threshold = do
  let clamped = clamp_threshold threshold
  let order = choose_order stats (pos clamped)
  rows ← estimated_intermediate_rows stats order
  ok (record {
    order = order;
    selectivity = relational_selectivity stats;
    intermediate_rows = rows;
    rationale_order = order;
    rationale_threshold = clamped;
  })
