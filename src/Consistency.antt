-- ===== src/Consistency.antt =====
-- bench/wikidata_consistency.py: the host simulation of one-transaction edits against edits that
-- commit store by store; and the multi-store write of bench/wiki_consistency.py with its injected
-- failure. The generator's random draws are a list of entities, the state is a function from an
-- entity to its legs (every entity of the window has an entry), and at most four examples are kept.
pub mod Laws
pub mod Tests
use tridb.Base.{
  ℕ, zero, suc, ◌+◌, Bool, true, false, not, ◌&&◌, Option, none, some, List, [], ◌∷◌, ◌++◌, ltb,
  ◌==◌, if◌then◌else◌, length,
}
use tridb.Base.Ratio.{Ratio, ratio, ratio_zero}

pub record Edit : Type 0 where
  pub entity : ℕ
  pub rev : ℕ

-- The stores of one entity, in the order of LEGS.
pub record Legs : Type 0 where
  pub vector : ℕ
  pub graph : ℕ
  pub relational : ℕ

-- len(set(legs)) != 1
abbrev pub torn : Legs → Bool
torn l = not (l.vector == l.graph && l.graph == l.relational)

abbrev pub same : ℕ → Legs
same rev = record { vector = rev; graph = rev; relational = rev }

abbrev pub baseline_rev : ℕ
baseline_rev = 0

-- What a field of a recorded edit holds: an integer that is not negative, as ids and revisions are
-- (Python counts a Boolean as an integer too), or another value.
pub data Field : Type 0 where
  absent other : Field
  int : ℕ → Field

unfoldable pub parse_edit : Field → Field → Option Edit
parse_edit (int ent) (int rev) = some (record { entity = ent; rev = rev })
parse_edit _ _ = none

module _ {ℓ} {V : Type ℓ} where
  abbrev pub update : (ℕ → V) → ℕ → V → ℕ → V
  update f k v j = if k == j then v else f j

-- `rev_of[ent] = rev_of.get(ent, BASELINE_REV) + 1` for each draw.
pub synthetic_from : (ℕ → ℕ) → List ℕ → List Edit
synthetic_from rev_of [] = []
synthetic_from rev_of (ent ∷ draws) =
    let rev = rev_of ent + 1 in
    record { entity = ent; rev = rev } ∷ synthetic_from (update rev_of ent rev) draws

unfoldable pub synthetic_edits : List ℕ → List Edit
unfolding synthetic_from
synthetic_edits draws = synthetic_from (λ _. baseline_rev) draws

-- The in-flight entity's legs after each commit of one edit; the last is what the edit leaves.
unfoldable pub commit_observations : Legs → ℕ → Bool → List Legs
commit_observations legs rev true = same rev ∷ []
commit_observations legs rev false =
    let one = record legs { vector = rev } in
    let two = record one { graph = rev } in one ∷ two ∷ record two { relational = rev } ∷ []

pub record Example : Type 0 where
  pub edit : Edit
  pub legs : Legs

pub record Tally : Type 0 where
  pub observations : ℕ
  pub torn_count : ℕ
  pub examples : List Example

-- The body of the inner loop.
unfoldable pub observe : Edit → Tally → Legs → Tally
observe e t legs =
    if torn legs
    then record {
      observations = t.observations + 1;
      torn_count = t.torn_count + 1;
      examples =
          if ltb (length t.examples) 4
          then t.examples ++ record { edit = e; legs = legs } ∷ []
          else t.examples;
    }
    else record t { observations = t.observations + 1 }

unfoldable pub observe_all : Edit → Tally → List Legs → Tally
unfolding observe
observe_all e t [] = t
observe_all e t (legs ∷ rest) = observe_all e (observe e t legs) rest

-- Each edit leaves its entity's legs at its revision.
unfoldable pub replay : Bool → (ℕ → Legs) → Tally → List Edit → Tally
unfolding observe_all commit_observations
replay atomic state t [] = t
replay atomic state t (e ∷ edits) =
    replay atomic (update state e.entity (same e.rev))
      (observe_all e t (commit_observations (state e.entity) e.rev atomic)) edits

pub record Simulation : Type 0 where
  pub atomic : Bool
  pub edits : ℕ
  pub tally : Tally
  pub torn_rate : Ratio

unfoldable pub simulate : List Edit → Bool → Simulation
unfolding replay
simulate edits atomic =
    let start : Tally = record { observations = 0; torn_count = 0; examples = [] } in
    let t = replay atomic (λ _. same baseline_rev) start edits in
    record {
      atomic = atomic;
      edits = length edits;
      tally = t;
      torn_rate = if t.observations == 0 then ratio_zero else ratio t.torn_count t.observations;
    }

unfoldable pub simulate_headtohead : List Edit → Simulation × Simulation
unfolding simulate
simulate_headtohead edits = (simulate edits true, simulate edits false)

-- MultiStore.write of bench/wiki_consistency.py: `inject_after` stops it after that store.
unfoldable pub write : Legs → ℕ → Option ℕ → Legs
write legs v none = same v
write legs v (some inject_after) =
    let one = record legs { vector = v } in
    let two = record one { graph = v } in
    if inject_after == 1
    then one
    else if inject_after == 2
    then two
    else record two { relational = v }
