-- ===== src/Planner/Tests.antt =====
-- Runs of src/planner/join_order_ref.py at concrete inputs, and the theorems there.
use tridb.Base.{◌≡◌, ◌↔◌, refl}
use tridb.Base.Int.{pos}
use tridb.Planner.{LegStats, filter_first, vector_first, choose_order}
use tridb.Planner.Laws.{FilterFirst, choose_order_iff}

abbrev demo : LegStats
demo = record {
  rel_filter_matches = 100;
  table_size = 10_000;
  avg_out_degree = 50_000;
  vector_topk = 10;
}

abbrev wide : LegStats
wide = record demo { rel_filter_matches = 1000 }

-- The boundary is inclusive: 1000 of 10000 rows at the default threshold.
boundary : choose_order wide (pos 1000) ≡ filter_first
unfolding choose_order
boundary = refl

past_boundary : choose_order wide (pos 999) ≡ vector_first
unfolding choose_order
past_boundary = refl

choose_order_iff_example :
    ((choose_order wide (pos 999) ≡ filter_first) ↔ FilterFirst wide (pos 999))
    × ((choose_order wide (pos 999) ≡ vector_first) ↔ (¬ FilterFirst wide (pos 999)))
choose_order_iff_example = choose_order_iff wide (pos 999)
