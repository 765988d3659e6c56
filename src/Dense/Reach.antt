-- ===== src/Dense/Reach.antt =====
-- typed_reach and candidates of bench/wikidata_h2h.py: the entities that an entity reaches through one
-- property, breadth first, and those of them that have a type.
pub mod Queue
pub mod Exact
pub mod Reached
use tridb.Base.{
  ℕ, zero, suc, ◌+◌, Bool, true, false, not, ◌&&◌, Option, none, some, List, [], ◌∷◌, ◌++◌, map,
  ◌==◌, leb, if◌then◌else◌, length, keep, contains, insert,
}
use tridb.Base.Sort.{sort}
use tridb.Dense.{Adjacency, out_edges, find}
use tridb.Dense.Types.{TypeMap}

-- Nodes with their depth.
abbrev pub Queue : Type 0
Queue = List (ℕ × ℕ)

pub record Search : Type 0 where
  pub seen : List ℕ
  pub visited : List ℕ
  pub queue : Queue

-- `p_id is not None and pe != p_id`, negated.
abbrev pub matches : Option ℕ → ℕ → Bool
matches none pe = true
matches (some p) pe = pe == p

-- One target, at the depth of its source.
abbrev pub take_target : ℕ → ℕ → ℕ → Search → Search
take_target src depth dst s = record {
  seen = if dst == src then s.seen else insert s.seen dst;
  visited = insert s.visited dst;
  queue = if contains s.visited dst then s.queue else s.queue ++ (dst, depth + 1) ∷ [];
}

unfoldable pub take_edges : ℕ → Option ℕ → ℕ → List (ℕ × ℕ) → Search → Search
take_edges src p_id depth [] s = s
take_edges src p_id depth ((pe, dst) ∷ rest) s =
    take_edges src p_id depth rest (if matches p_id pe then take_target src depth dst s else s)

-- `while frontier`, on fuel.
unfoldable pub reach_loop :
    Adjacency → ℕ → Option ℕ → ℕ → ℕ → List ℕ → List ℕ → Queue → Option (List ℕ)
unfolding take_edges
reach_loop adj src p_id hops fuel seen visited [] = some seen
reach_loop adj src p_id hops zero seen visited (x ∷ rest) = none
reach_loop adj src p_id hops (suc fuel) seen visited ((cur, depth) ∷ rest) = elim (leb hops depth) [
  | true ↦ reach_loop adj src p_id hops fuel seen visited rest
  | false ↦
      let s =
        take_edges src p_id depth (out_edges adj cur)
          (record { seen = seen; visited = visited; queue = rest }) in
      reach_loop adj src p_id hops fuel s.seen s.visited s.queue
]

-- The targets of all the edges.
abbrev pub all_targets : Adjacency → List ℕ
all_targets [] = []
all_targets ((s, es) ∷ rest) = map (λ (e : ℕ × ℕ). e.1) es ++ all_targets rest

-- A round for `src` and for each edge.
unfoldable pub typed_reach : Adjacency → ℕ → Option ℕ → ℕ → Option (List ℕ)
unfolding reach_loop
typed_reach adj src p_id hops =
    reach_loop adj src p_id hops (suc (length (all_targets adj))) [] (src ∷ []) ((src, 0) ∷ [])

-- `t_id in types.get(e, ())`
abbrev pub has_type : TypeMap → Option ℕ → ℕ → Bool
has_type types none e = true
has_type types (some t) e = elim (find types e) [ none ↦ false | some ts ↦ contains ts t ]

unfoldable pub candidates : Adjacency → TypeMap → ℕ → Option ℕ → Option ℕ → ℕ → Option (List ℕ)
unfolding typed_reach
candidates adj types x p_id t_id hops = elim (typed_reach adj x p_id hops) [
  | none ↦ none
  | some reach ↦ some (sort leb (keep (has_type types t_id) reach))
]
