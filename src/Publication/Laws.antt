-- ===== src/Publication/Laws.antt =====
-- When bench/wiki_h2h.py lets a headline through.
use Prim.Native.String.{String}
use tridb.Base.{
  sym, ap, ◌∙◌, ℕ, ◌≡◌, ◌↔◌, refl, Bool, true, false, not, ◌||◌, Option, none, some, List, [], ◌∷◌,
  ◌++◌, arith, ==_iff,
}
use mathlib.Core.Path.{subst}
use mathlib.Core.Option.{some-injective, none-ne-some}
use tridb.Base.Int.{ℤ, pos, negsuc, ltb_ℤ}
use tridb.Publication.{
  Point, OracleMeta, Environment, Blocker, graph_set_mismatch, build_not_reproducible,
  timer_boundary, recall_not_matched, index_not_used, censored, eq_ℤ, when, graph_blockers, is_yes,
  build_blockers, unmatched, is_unexamined, at_cap, point_blockers, publication_gate,
}
use tridb.Publication.Conditions.{
  RecallsMatch, Examined, BelowCap, IsYes, unmatched-RecallsMatch, is_unexamined-Examined,
  at_cap-BelowCap, is_yes-IsYes,
}

nil-append : (xs ys : List Blocker) → (xs ++ ys ≡ []) ↔ ((xs ≡ []) × (ys ≡ []))
nil-append [] ys = (λ e. (refl, e), λ h. h.1)
nil-append (x ∷ xs) ys = (λ e. absurd (cc), λ h. absurd (let e = h.0 in cc))

nil-append_three :
    (xs ys zs : List Blocker) → (xs ++ ys ++ zs ≡ []) ↔ ((xs ≡ []) × (ys ≡ []) × (zs ≡ []))
nil-append_three xs ys zs = (
  λ e.
      let (front, last) = (nil-append (xs ++ ys) zs).0 e in
      let (first, second) = (nil-append xs ys).0 front in (first, second, last),
  λ h. (nil-append (xs ++ ys) zs).1 ((nil-append xs ys).1 (h.0, h.1), h.2),
)

when-nil : (test : Bool) (blocker : Blocker) → (when test blocker ≡ []) ↔ (test ≡ false)
when-nil true blocker = (λ e. absurd (cc), λ e. absurd (cc))
when-nil false blocker = (λ e. refl, λ e. refl)

abbrev magnitude : ℤ → ℕ
magnitude (pos n) = n
magnitude (negsuc n) = n

eq_ℤ_iff : (a b : ℤ) → (eq_ℤ a b ≡ true) ↔ (a ≡ b)
eq_ℤ_iff (pos a) (pos b) = (λ e. ap pos ((==_iff a b).0 e), λ e. (==_iff a b).1 (ap magnitude e))
eq_ℤ_iff (pos a) (negsuc b) = (λ e. absurd (cc), λ e. absurd (cc))
eq_ℤ_iff (negsuc a) (pos b) = (λ e. absurd (cc), λ e. absurd (cc))
eq_ℤ_iff (negsuc a) (negsuc b) =
    (λ e. ap negsuc ((==_iff a b).0 e), λ e. (==_iff a b).1 (ap magnitude e))

-- Both systems traversed the same number of edges.
abbrev pub SameGraph : Option ℤ → Option ℤ → Type 0
SameGraph engine oracle = (n : ℤ) × (engine ≡ some n) × (oracle ≡ some n)

-- At least `least` index builds, all of them healthy.
abbrev pub AllHealthy : ℤ → Option ℤ → Option ℤ → Type 0
AllHealthy least healthy total =
    (h : ℤ) × (t : ℤ) × (healthy ≡ some h)
    × (total ≡ some t)
    × (ltb_ℤ t least ≡ false)
    × (ltb_ℤ h t ≡ false)

-- Two operating points of matched recall, TriDB's neither unexamined nor at the work cap.
abbrev pub MatchedPoints :
    Environment → OracleMeta → Option (String × Point) → Option (String × Point) → Type 0
MatchedPoints env m tp bp =
    (t : String × Point) × (b : String × Point) × (tp ≡ some t)
    × (bp ≡ some b)
    × RecallsMatch env.recall_eps t.1.recall_at_k b.1.recall_at_k
    × Examined t.1.median_examined
    × BelowCap m.tjs_max_examined t.1.median_examined

not-false : (b : Bool) → (not b ≡ false) ↔ (b ≡ true)
not-false true = (λ e. refl, λ e. refl)
not-false false = (λ e. absurd (cc), λ e. absurd (cc))

graph_blockers-nil :
    (engine oracle : Option ℤ) → (graph_blockers engine oracle ≡ []) ↔ SameGraph engine oracle
graph_blockers-nil (some e) (some n) =
    let test = when-nil (not (eq_ℤ e n)) graph_set_mismatch in
    (
      λ h.
          let same = (eq_ℤ_iff e n).0 ((not-false (eq_ℤ e n)).0 (test.0 h)) in
          (n, ap some same, refl),
      λ g.
          test.1 ((not-false (eq_ℤ e n)).1 ((eq_ℤ_iff e n).1 (some-injective e n (g.1 ∙ sym g.2)))),
    )
graph_blockers-nil none n = (λ h. absurd (cc), λ g. absurd (none-ne-some g.0 g.1))
graph_blockers-nil (some e) none = (λ h. absurd (cc), λ g. absurd (none-ne-some g.0 g.2))

neither : (x y : Bool) → x ≡ false → y ≡ false → (x || y) ≡ false
neither x y p q = ground arith

build_blockers-nil :
    (least : ℤ) (healthy total : Option ℤ)
    → (build_blockers least healthy total ≡ []) ↔ AllHealthy least healthy total
build_blockers-nil least (some h) (some t) =
    let test = when-nil (ltb_ℤ t least || ltb_ℤ h t) build_not_reproducible in
    (
      λ e. let none' = test.0 e in (h, t, refl, refl, ground (arith, none'), ground (arith, none')),
      λ (h', t', p, q, enough, healthy). test.1 (
          neither (ltb_ℤ t least) (ltb_ℤ h t)
            (ap (λ z. ltb_ℤ z least) (some-injective t t' q) ∙ enough)
            (ap (λ z. ltb_ℤ z t) (some-injective h h' p)
              ∙ ap (ltb_ℤ h') (some-injective t t' q)
              ∙ healthy)),
    )
build_blockers-nil least none total = (λ h. absurd (cc), λ g. absurd (none-ne-some g.0 g.2))
build_blockers-nil least (some h) none = (λ h. absurd (cc), λ g. absurd (none-ne-some g.1 g.3))

point_blockers-nil :
    (env : Environment) (m : OracleMeta) (tp bp : Option (String × Point))
    → (point_blockers env m tp bp ≡ []) ↔ MatchedPoints env m tp bp
point_blockers-nil env m (some t) (some b) =
    let recall = unmatched env.recall_eps t.1.recall_at_k b.1.recall_at_k in
    let idle = is_unexamined t.1.median_examined in
    let capped = at_cap m.tjs_max_examined t.1.median_examined in
    let all =
      nil-append_three (when recall recall_not_matched) (when idle index_not_used)
        (when capped censored) in
    let matched = unmatched-RecallsMatch env.recall_eps t.1.recall_at_k b.1.recall_at_k in
    let used = is_unexamined-Examined t.1.median_examined in
    let below = at_cap-BelowCap m.tjs_max_examined t.1.median_examined in
    (
      λ e.
          let (x, y, z) = all.0 e in
          (
            t,
            b,
            refl,
            refl,
            matched.0 ((when-nil recall recall_not_matched).0 x),
            used.0 ((when-nil idle index_not_used).0 y),
            below.0 ((when-nil capped censored).0 z),
          ),
      λ (t', b', p, q, x, y, z).
          let e : t' ≡ t = sym (some-injective t t' p) in
          let f : b' ≡ b = sym (some-injective b b' q) in
          let x' =
            subst
              (λ (u : String × Point). RecallsMatch env.recall_eps t.1.recall_at_k u.1.recall_at_k)
              f
              (subst
                (λ (u : String × Point).
                  RecallsMatch env.recall_eps u.1.recall_at_k b'.1.recall_at_k)
                e x) in
          let y' = subst (λ (u : String × Point). Examined u.1.median_examined) e y in
          let z' =
            subst (λ (u : String × Point). BelowCap m.tjs_max_examined u.1.median_examined) e z in
          all.1 (
            (when-nil recall recall_not_matched).1 (matched.1 x'),
            (when-nil idle index_not_used).1 (used.1 y'),
            (when-nil capped censored).1 (below.1 z'),
          ),
    )
point_blockers-nil env m none bp = (λ h. absurd (cc), λ g. absurd (none-ne-some g.0 g.2))
point_blockers-nil env m (some t) none = (λ h. absurd (cc), λ g. absurd (none-ne-some g.1 g.3))

-- The gate has no blocker exactly when both systems are declared to traverse the same number of
-- edges; the timer boundary is declared equal by "1", "true" or "yes"; at least the least number of
-- index builds is declared, no fewer of them healthy than there are; both operating points exist;
-- their recalls differ by at most `WH_RECALL_EPS`, as exact fractions, or one of them is a NaN; and
-- TriDB's examined count is a NaN, or is not 0 and, when a cap other than 0 is declared, is below
-- it.
pub publication_gate-nil :
    (env : Environment) (tp bp : Option (String × Point)) (m : OracleMeta)
    → (publication_gate env tp bp m ≡ []) ↔ (
        SameGraph m.engine_edges m.neo4j_edges
        × IsYes env.boundary_parity
        × AllHealthy env.min_healthy_builds m.hnsw_healthy_builds m.hnsw_total_builds
        × MatchedPoints env m tp bp)
unfolding publication_gate
publication_gate-nil env tp bp m =
    let graph = graph_blockers m.engine_edges m.neo4j_edges in
    let timer = when (not (is_yes env.boundary_parity)) timer_boundary in
    let builds = build_blockers env.min_healthy_builds m.hnsw_healthy_builds m.hnsw_total_builds in
    let points = point_blockers env m tp bp in
    let timer_nil = when-nil (not (is_yes env.boundary_parity)) timer_boundary in
    let parity = not-false (is_yes env.boundary_parity) in
    let declared = is_yes-IsYes env.boundary_parity in
    let graph_nil = graph_blockers-nil m.engine_edges m.neo4j_edges in
    let builds_nil =
      build_blockers-nil env.min_healthy_builds m.hnsw_healthy_builds m.hnsw_total_builds in
    let points_nil = point_blockers-nil env m tp bp in
    let front = nil-append_three graph timer builds in
    let whole = nil-append (graph ++ timer ++ builds) points in
    (
      λ e.
          let (before, last) = whole.0 e in
          let (x, y, z) = front.0 before in
          (graph_nil.0 x, declared.0 (parity.0 (timer_nil.0 y)), builds_nil.0 z, points_nil.0 last),
      λ h. whole.1 (
        front.1 (graph_nil.1 h.0, timer_nil.1 (parity.1 (declared.1 h.1)), builds_nil.1 h.2),
        points_nil.1 h.3,
      ),
    )
