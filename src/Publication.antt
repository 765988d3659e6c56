-- ===== src/Publication.antt =====
-- bench/wiki_h2h.py: the operating point of a curve, and the gate that a headline passes. A NaN is
-- `none`; the environment and the oracle's metadata come as the values that they parse to, `none`
-- where `_int` gives None. A blocker is told by its kind, without its text. Recalls
-- are exact fractions: a gap equal to the tolerance passes, where the float's subtraction may
-- exceed it.
pub mod Conditions
pub mod Laws
pub mod Tests
use Prim.Native.String.{String}
use text.Mathlib.Text.{◌==◌ as str_eq}
use tridb.Base.{
  ℕ, zero, suc, ◌+◌, ◌-◌, ◌*◌, Bool, true, false, not, ◌&&◌, ◌||◌, Option, none, some, List, [],
  ◌∷◌, ◌++◌, ◌==◌, if◌then◌else◌,
}
use tridb.Base.Int.{ℤ, pos, negsuc, ltb_ℤ}
use tridb.Base.Ratio.{Ratio, ratio, ratio_leb, ratio_ltb}

pub record Point : Type 0 where
  pub recall_at_k : Option Ratio
  pub median_latency_ms : Ratio
  pub median_examined : Option Ratio

abbrev pub Curve : Type 0
Curve = List (String × Point)

abbrev pub clears : Ratio → Point → Bool
clears target c = elim c.recall_at_k [ none ↦ false | some r ↦ ratio_leb target r ]

-- The first of the fastest, among those that clear the target.
unfoldable pub operating_point : Curve → Ratio → Option (String × Point)
operating_point [] target = none
operating_point ((tag, c) ∷ rest) target =
    let later = operating_point rest target in
    if clears target c
    then (elim later [
      | none ↦ some (tag, c)
      | some best ↦
          if ratio_ltb best.1.median_latency_ms c.median_latency_ms
          then some best
          else some (tag, c)
    ])
    else later

pub record OracleMeta : Type 0 where
  pub engine_edges : Option ℤ
  pub neo4j_edges : Option ℤ
  pub hnsw_healthy_builds : Option ℤ
  pub hnsw_total_builds : Option ℤ
  pub tjs_max_examined : Option ℤ

pub record Environment : Type 0 where
  pub boundary_parity : String
  pub min_healthy_builds : ℤ
  pub recall_eps : Ratio

pub data Blocker : Type 0 where
  graph_set_unknown graph_set_mismatch : Blocker
  timer_boundary : Blocker
  build_health_undeclared build_not_reproducible : Blocker
  no_operating_point : Blocker
  recall_not_matched index_not_used censored : Blocker

abbrev pub eq_ℤ : ℤ → ℤ → Bool
eq_ℤ (pos a) (pos b) = a == b
eq_ℤ (pos a) (negsuc b) = false
eq_ℤ (negsuc a) (pos b) = false
eq_ℤ (negsuc a) (negsuc b) = a == b

abbrev pub when : Bool → Blocker → List Blocker
when test blocker = if test then blocker ∷ [] else []

abbrev pub graph_blockers : Option ℤ → Option ℤ → List Blocker
graph_blockers (some e) (some n) = when (not (eq_ℤ e n)) graph_set_mismatch
graph_blockers none n = graph_set_unknown ∷ []
graph_blockers (some e) none = graph_set_unknown ∷ []

-- In ("1", "true", "yes"), the text being lower case.
abbrev pub is_yes : String → Bool
is_yes s = str_eq s "1" || str_eq s "true" || str_eq s "yes"

abbrev pub build_blockers : ℤ → Option ℤ → Option ℤ → List Blocker
build_blockers min_healthy (some healthy) (some total) =
    when (ltb_ℤ total min_healthy || ltb_ℤ healthy total) build_not_reproducible
build_blockers min_healthy none total = build_health_undeclared ∷ []
build_blockers min_healthy (some healthy) none = build_health_undeclared ∷ []

-- abs(a - b)
abbrev pub ratio_gap : Ratio → Ratio → Ratio
ratio_gap a b =
    ratio ((a.num * b.den - b.num * a.den) + (b.num * a.den - a.num * b.den)) (a.den * b.den)

abbrev pub unmatched : Ratio → Option Ratio → Option Ratio → Bool
unmatched eps (some t) (some b) = ratio_ltb eps (ratio_gap t b)
unmatched eps none b = false
unmatched eps (some t) none = false

-- examined <= 0, a count.
abbrev pub is_unexamined : Option Ratio → Bool
is_unexamined none = false
is_unexamined (some ex) = ex.num == 0

-- `if cap and ... and ex >= cap`
abbrev pub at_cap : Option ℤ → Option Ratio → Bool
at_cap none ex = false
at_cap (some cap) none = false
at_cap (some (negsuc n)) (some ex) = true
at_cap (some (pos zero)) (some ex) = false
at_cap (some (pos (suc n))) (some ex) = ratio_leb (ratio (suc n) 1) ex

abbrev pub point_blockers :
    Environment → OracleMeta → Option (String × Point) → Option (String × Point) → List Blocker
point_blockers env m (some tp) (some bp) =
    when (unmatched env.recall_eps tp.1.recall_at_k bp.1.recall_at_k) recall_not_matched
    ++ when (is_unexamined tp.1.median_examined) index_not_used
    ++ when (at_cap m.tjs_max_examined tp.1.median_examined) censored
point_blockers env m none bp = no_operating_point ∷ []
point_blockers env m (some tp) none = no_operating_point ∷ []

unfoldable pub publication_gate :
    Environment → Option (String × Point) → Option (String × Point) → OracleMeta → List Blocker
publication_gate env tp bp m =
    graph_blockers m.engine_edges m.neo4j_edges
    ++ when (not (is_yes env.boundary_parity)) timer_boundary
    ++ build_blockers env.min_healthy_builds m.hnsw_healthy_builds m.hnsw_total_builds
    ++ point_blockers env m tp bp
