-- ===== src/Publication/Tests.antt =====
-- The theorem on bench/wiki_h2h.py at two operating points, and runs of its functions.
use Prim.Native.String.{String}
use tridb.Base.{ℕ, ◌≡◌, ◌↔◌, refl, Option, none, some, [], ◌∷◌}
use tridb.Base.Int.{pos}
use tridb.Base.Ratio.{ratio}
use tridb.Publication.{
  Point, Curve, operating_point, OracleMeta, Environment, publication_gate, graph_set_mismatch,
  censored,
}
use tridb.Publication.Conditions.{IsYes}
use tridb.Publication.Laws.{SameGraph, AllHealthy, MatchedPoints, publication_gate-nil}

abbrev point_at : ℕ → ℕ → ℕ → Point
point_at recall latency examined = record {
  recall_at_k = some (ratio recall 100);
  median_latency_ms = ratio latency 1;
  median_examined = some (ratio examined 1);
}

abbrev unanswered : Point
unanswered = record { recall_at_k = none; median_latency_ms = ratio 1 1; median_examined = none }

abbrev curve : Curve
curve =
    ("none", unanswered)
    ∷ ("low", point_at 80 2 10)
    ∷ ("slow", point_at 99 9 10)
    ∷ ("fast", point_at 97 5 40)
    ∷ ("same", point_at 98 5 40)
    ∷ []

fastest : operating_point curve (ratio 95 100) ≡ some ("fast", point_at 97 5 40)
unfolding operating_point
fastest = refl

abbrev env : Environment
env = record { boundary_parity = "yes"; min_healthy_builds = pos 3; recall_eps = ratio 2 100 }

abbrev oracle : ℕ → OracleMeta
oracle edges = record {
  engine_edges = some (pos edges);
  neo4j_edges = some (pos 7);
  hnsw_healthy_builds = some (pos 3);
  hnsw_total_builds = some (pos 3);
  tjs_max_examined = some (pos 40);
}

abbrev tp : Option (String × Point)
tp = some ("fast", point_at 97 5 40)

abbrev bp : Option (String × Point)
bp = some ("base", point_at 98 20 0)

blocked : publication_gate env tp bp (oracle 8) ≡ graph_set_mismatch ∷ censored ∷ []
unfolding publication_gate
blocked = refl

publication_gate-nil_example : (publication_gate env tp bp (oracle 7) ≡ []) ↔ (
    SameGraph (some (pos 7)) (some (pos 7))
    × IsYes "yes"
    × AllHealthy (pos 3) (some (pos 3)) (some (pos 3))
    × MatchedPoints env (oracle 7) tp bp)
publication_gate-nil_example = publication_gate-nil env tp bp (oracle 7)
