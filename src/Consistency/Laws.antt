-- ===== src/Consistency/Laws.antt =====
-- What bench/wikidata_consistency.py's tallies come to.
use tridb.Base.{
  ap, ℕ, ◌+◌, ◌*◌, ◌≡◌, ◌≢◌, refl, ◌↔◌, ◌⊎◌, true, false, Option, none, some, List, [], ◌∷◌, arith,
  ◌==◌, if◌then◌else◌, length, ◌∙◌,
}
use tridb.Consistency.{
  Edit, Legs, torn, same, baseline_rev, update, synthetic_from, synthetic_edits,
  commit_observations, Tally, observe_all, replay, simulate, simulate_headtohead, write,
}

-- The edits that move their entity to another revision than the one it has, when `rev_of` says
-- what it has.
abbrev pub changes : (ℕ → ℕ) → List Edit → ℕ
changes rev_of [] = 0
changes rev_of (e ∷ edits) =
    (if rev_of e.entity == e.rev then 0 else 1) + changes (update rev_of e.entity e.rev) edits

-- What one edit adds to a tally.
step_atomic :
    (e : Edit) (t : Tally) (legs : Legs)
    → observe_all e t (commit_observations legs e.rev true)
      ≡ record t { observations = t.observations + 1 }
unfolding observe_all commit_observations
step_atomic e t legs = ground arith

step_split :
    (e : Edit) (t : Tally) (legs : Legs) (r : ℕ)
    → legs ≡ same r
    → let u = observe_all e t (commit_observations legs e.rev false) in
      (u.observations ≡ t.observations + 3)
      × (u.torn_count ≡ t.torn_count + 2 * (if r == e.rev then 0 else 1))
unfolding observe_all commit_observations
step_split e t legs r h = (ground arith, ground arith)

replay_atomic :
    (state : ℕ → Legs) (t : Tally) (edits : List Edit)
    → replay true state t edits ≡ record t { observations = t.observations + length edits }
unfolding replay
replay_atomic state t [] = ground arith
replay_atomic state t (e ∷ edits) = rw (step_atomic e t (state e.entity)) (
    replay_atomic (update state e.entity (same e.rev))
      (record t { observations = t.observations + 1 }) edits
    ∙ ground arith)

replay_split :
    (state : ℕ → Legs) (rev_of : ℕ → ℕ) (t : Tally) (edits : List Edit)
    → ((j : ℕ) → state j ≡ same (rev_of j))
    → let u = replay false state t edits in
      (u.observations ≡ t.observations + 3 * length edits)
      × (u.torn_count ≡ t.torn_count + 2 * changes rev_of edits)
unfolding replay
replay_split state rev_of t [] h = (omega arith, omega arith)
replay_split state rev_of t (e ∷ edits) h =
    let one = step_split e t (state e.entity) (rev_of e.entity) (h e.entity) in
    let rest =
      replay_split (update state e.entity (same e.rev)) (update rev_of e.entity e.rev)
        (observe_all e t (commit_observations (state e.entity) e.rev false)) edits
        (λ j. ground (arith, h j)) in
    (omega (arith, rest.0, one.0), omega (arith, rest.1, one.1))

-- For any edits, the replay with one transaction for each edit observes once for each edit and
-- never a torn entity, and the replay store by store observes three times for each edit and torn
-- legs exactly twice for each edit that changes its entity's revision.
pub simulate_headtohead_tally :
    (edits : List Edit)
    → let (tridb, multistore) = simulate_headtohead edits in
      (tridb.tally.torn_count ≡ 0)
      × (tridb.tally.observations ≡ length edits)
      × (tridb.tally.examples ≡ [])
      × (multistore.tally.observations ≡ 3 * length edits)
      × (multistore.tally.torn_count ≡ 2 * changes (λ _. baseline_rev) edits)
unfolding simulate_headtohead
simulate_headtohead_tally edits =
    let start : Tally = record { observations = 0; torn_count = 0; examples = [] } in
    let one = replay_atomic (λ _. same baseline_rev) start edits in
    let split = replay_split (λ _. same baseline_rev) (λ _. baseline_rev) start edits (λ j. refl) in
    (
      ap (λ (t : Tally). t.torn_count) one,
      omega (arith, ap (λ (t : Tally). t.observations) one),
      ap (λ (t : Tally). t.examples) one,
      omega (arith, split.0),
      omega (arith, split.1),
    )

changes-synthetic :
    (rev_of : ℕ → ℕ) (draws : List ℕ)
    → (changes rev_of (synthetic_from rev_of draws) ≡ length draws)
      × (length (synthetic_from rev_of draws) ≡ length draws)
unfolding synthetic_from
changes-synthetic rev_of [] = (refl, refl)
changes-synthetic rev_of (ent ∷ draws) =
    let rest = changes-synthetic (update rev_of ent (rev_of ent + 1)) draws in
    (ground (arith, rest.0), ground (arith, rest.1))

-- On a synthetic window, whatever the draws, each edit raises its entity's revision, so of three
-- observations of the store-by-store replay exactly two are torn.
simulate-synthetic_edits :
    (draws : List ℕ)
    → let s = simulate (synthetic_edits draws) false in
      (s.edits ≡ length draws)
      × (s.tally.observations ≡ 3 * length draws)
      × (s.tally.torn_count ≡ 2 * length draws)
unfolding synthetic_edits simulate
simulate-synthetic_edits draws =
    let (moved, long) = changes-synthetic (λ _. baseline_rev) draws in
    let split =
      replay_split (λ _. same baseline_rev) (λ _. baseline_rev)
        (record { observations = 0; torn_count = 0; examples = [] })
        (synthetic_from (λ _. baseline_rev) draws) (λ j. refl) in
    (long, omega (arith, split.0, long), omega (arith, split.1, moved))

-- A multi-store write that a failure stops leaves consistent legs torn exactly when it stopped
-- after the first or the second store and the revision was a new one.
torn-write :
    (old v : ℕ) (inject_after : Option ℕ)
    → (torn (write (same old) v inject_after) ≡ true)
      ↔ ((old ≢ v) × ((inject_after ≡ some 1) ⊎ (inject_after ≡ some 2)))
unfolding write
torn-write old v none = ground arith
torn-write old v (some n) = ground arith
