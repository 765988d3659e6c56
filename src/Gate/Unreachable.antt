-- ===== src/Gate/Unreachable.antt =====
-- What the exclusion of the held-out edges does to the reachability that bench/wiki_ppr_gate.py
-- reports.
use mathlib.Core.Bool.{true≢false}
use tridb.Base.{
  ap, ◌∙◌, ℕ, ◌≤◌, ◌≡◌, ◌↔◌, Bool, true, false, not, ◌&&◌, ◌||◌, List, [], ◌∷◌, ◌==◌, contains,
  arith, Bool-cases, inl, inr, sym,
}
use tridb.Gate.{
  Adjacency, Sample, build_load_edges, exclude_holdouts, adjacency_from_edges, expand,
  reachable_within_hops,
}
use tridb.Gate.Hop.{contains-keep}
use tridb.Gate.Reachable.{Walks, at_seed, onwards, Reaches, contains-expand}
use tridb.Gate.Holdouts.{links, holds_out, has_edge-exclude_holdouts, contains-adjacency_from_edges}

abbrev pub loaded : Adjacency → List Sample → ℕ → List ℕ
loaded adj samples = adjacency_from_edges (exclude_holdouts (build_load_edges adj) samples)

-- An article other than the query is reachable exactly when a walk of at most `hops` loaded edges
-- leads to it.
contains-reachable_within_hops :
    (adj : ℕ → List ℕ) (src hops d : ℕ)
    → (contains (reachable_within_hops adj src hops) d ≡ true)
      ↔ (((d == src) ≡ false) × Reaches adj (src ∷ []) hops d)
contains-reachable_within_hops adj src hops d =
    let kept = contains-keep (λ x. not (x == src)) (expand adj (src ∷ []) hops) d in
    let found = contains-expand adj (src ∷ []) hops d in
    (
      λ c. (ground (arith, kept), found.0 (ground (arith, kept))),
      λ h. ground (arith, kept, h.0, found.1 h.1),
    )

one_walk :
    (adj : ℕ → List ℕ) (src d n : ℕ)
    → n ≤ 1
    → Walks adj (src ∷ []) n d
    → (d == src) ≡ false
    → contains (adj src) d ≡ true
one_walk adj src d n few (at_seed seed) apart =
    absurd (true≢false (sym (ground (arith, seed)) ∙ apart))
one_walk adj src d n few (onwards (at_seed {s = s} seed) link) apart =
    let same : src ≡ s = ground (arith, seed) in ap (λ t. contains (adj t) d) same ∙ link
one_walk adj src d n few (onwards (onwards walk link') link) apart = absurd (omega (arith, few))

dropped : (x y : Bool) → y ≡ true → (x && not y) ≡ false
dropped x y h = ground arith

-- A pair that a sample holds out is not reachable in one hop, whatever the slice links.
pub held_out-reachable_within_hops :
    (adj : Adjacency) (samples : List Sample) (a b : ℕ)
    → holds_out samples a b ≡ true
    → contains (reachable_within_hops (loaded adj samples) a 1) b ≡ false
held_out-reachable_within_hops adj samples a b h =
    elim (Bool-cases (contains (reachable_within_hops (loaded adj samples) a 1) b)) [
      | inr out ↦ out
      | inl inside ↦
          let (apart, reach) =
            (contains-reachable_within_hops (loaded adj samples) a 1 b).0 inside in
          let link = one_walk (loaded adj samples) a b reach.0 reach.1 reach.2 apart in
          let edge =
            contains-adjacency_from_edges (exclude_holdouts (build_load_edges adj) samples) a b in
          let spec = has_edge-exclude_holdouts adj samples a b in
          absurd (
            true≢false (
              sym link
              ∙ edge
              ∙ spec
              ∙ dropped (links adj a b || links adj b a) (holds_out samples a b) h))
    ]
