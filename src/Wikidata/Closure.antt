-- ===== src/Wikidata/Closure.antt =====
-- Which entities a slice keeps (tools/wikidata_ingest.py): a prefix of the dump, or the closure of
-- seeds, by the dump itself, by the compact sidecar, or in memory. A set is the list of its members;
-- the loops take fuel.
pub mod Agree
pub mod Discover
pub mod Reached
use tridb.Base.{
  ℕ, zero, suc, ◌+◌, Bool, true, false, not, ◌&&◌, Option, none, some, List, [], ◌∷◌, ◌++◌, leb,
  if◌then◌else◌, length, contains, insert, keep,
}
use tridb.Base.Sort.{sort}
use tridb.Wikidata.Statements.{Edge, Entity, entity_id, entity_edges, parse_entity}
use tridb.Wikidata.Compact.{Row}

-- prefix_ids
unfoldable pub prefix_ids : ℕ → List ℕ → List Entity → List ℕ
prefix_ids limit kept [] = kept
prefix_ids limit kept (obj ∷ rest) = elim (parse_entity obj) [
  | none ↦ prefix_ids limit kept rest
  | some ent ↦ elim (leb limit (length (insert kept ent.id))) [
    | true ↦ insert kept ent.id
    | false ↦ prefix_ids limit (insert kept ent.id) rest
  ]
]

-- prefix_ids_compact
unfoldable pub prefix_ids_compact : ℕ → List ℕ → List Row → List ℕ
prefix_ids_compact limit kept [] = kept
prefix_ids_compact limit kept (r ∷ rest) = elim r.usable [
  | false ↦ prefix_ids_compact limit kept rest
  | true ↦ elim (leb limit (length (insert kept r.qid))) [
    | true ↦ insert kept r.qid
    | false ↦ prefix_ids_compact limit (insert kept r.qid) rest
  ]
]

-- The targets of one entity that are not kept yet join the next frontier.
abbrev pub collect : List ℕ → List Edge → List ℕ → List ℕ
collect kept [] next = next
collect kept ((pid, dst) ∷ rest) next =
    collect kept rest (if contains kept dst then next else insert next dst)

-- One scan of the dump.
unfoldable pub scan : List ℕ → List ℕ → List Entity → List ℕ → List ℕ
scan kept frontier [] next = next
scan kept frontier (obj ∷ rest) next = scan kept frontier rest (elim (entity_id obj) [
  | none ↦ next
  | some eid ↦ if contains frontier eid then collect kept (entity_edges obj.claims) next else next
])

-- One scan of the sidecar.
unfoldable pub scan_compact : List ℕ → List ℕ → List Row → List ℕ → List ℕ
scan_compact kept frontier [] next = next
scan_compact kept frontier (r ∷ rest) next =
    scan_compact kept frontier rest
      (if contains frontier r.qid then collect kept r.edges next else next)

-- `for dst in sorted(next_frontier)`: keep until the target is met.
abbrev pub fill : ℕ → List ℕ → List ℕ → List ℕ
fill target kept [] = kept
fill target kept (dst ∷ rest) =
    let more = fill target (insert kept dst) rest in if leb target (length kept) then kept else more

abbrev pub ascending : List ℕ → List ℕ
ascending xs = sort leb xs

-- The loop over the hops, for either way of scanning; `none` means that the fuel ran out.
abbrev pub hops_loop :
    (List ℕ → List ℕ → List ℕ) → ℕ → ℕ → List ℕ → List ℕ → ℕ → Option (List ℕ × ℕ)
hops_loop scan_with target zero kept frontier hops =
    if not (leb target (length kept)) && leb 1 (length frontier) then none else some (kept, hops)
hops_loop scan_with target (suc fuel) kept frontier hops =
    let next = scan_with kept frontier in
    let kept' = fill target kept (ascending next) in
    let more = hops_loop scan_with target fuel kept' (keep (contains kept') next) (hops + 1) in
    if not (leb target (length kept)) && leb 1 (length frontier) then more else some (kept, hops)

-- {s for s in seeds}
abbrev pub set_of : List ℕ → List ℕ → List ℕ
set_of [] kept = kept
set_of (s ∷ rest) kept = set_of rest (insert kept s)

unfoldable pub closure_ids : ℕ → List Entity → List ℕ → ℕ → Option (List ℕ × ℕ)
unfolding scan
closure_ids fuel dump seeds target =
    let kept = set_of seeds [] in hops_loop (λ k f. scan k f dump []) target fuel kept kept 0

unfoldable pub closure_ids_compact : ℕ → List Row → List ℕ → ℕ → Option (List ℕ × ℕ)
unfolding scan_compact
closure_ids_compact fuel rows seeds target =
    let kept = set_of seeds [] in
    hops_loop (λ k f. scan_compact k f rows []) target fuel kept kept 0

-- present_ids
unfoldable pub present_ids : List ℕ → List ℕ → List Entity → List ℕ
present_ids kept present [] = present
present_ids kept present (obj ∷ rest) =
    present_ids kept
      (elim (entity_id obj) [
        | none ↦ present
        | some eid ↦
            if contains kept eid
            then (elim (parse_entity obj) [ none ↦ present | some e ↦ insert present eid ])
            else present
      ])
      rest

-- present_ids_compact
unfoldable pub present_ids_compact : List ℕ → List ℕ → List Row → List ℕ
present_ids_compact kept present [] = present
present_ids_compact kept present (r ∷ rest) =
    present_ids_compact kept
      (if contains kept r.qid && r.usable then insert present r.qid else present) rest

-- The two loops of `bfs_closure`. The first fills the queue with the seeds; `true` means that the
-- target was met, and the call returns at once.
pub record Search : Type 0 where
  pub kept : List ℕ
  pub queue : List ℕ
  pub full : Bool

unfoldable pub discover : ℕ → List ℕ → Search → Search
discover target [] s = s
discover target (nxt ∷ rest) s =
    let s' = if contains s.kept nxt then s else record {
      kept = s.kept ++ nxt ∷ [];
      queue = s.queue ++ nxt ∷ [];
      full = leb target (length (s.kept ++ nxt ∷ []));
    } in
    let more = discover target rest s' in if s'.full then s' else more

unfoldable pub bfs_loop : (ℕ → List ℕ) → ℕ → ℕ → Search → Option Search
unfolding discover
bfs_loop adjacency target zero s =
    if s.full then some s else (elim s.queue [ [] ↦ some s | _ ∷ _ ↦ none ])
bfs_loop adjacency target (suc fuel) s = elim s.full [
  | true ↦ some s
  | false ↦ elim s.queue [
    | [] ↦ some s
    | cur ∷ rest ↦
        bfs_loop adjacency target fuel (discover target (adjacency cur) (record s { queue = rest }))
  ]
]

unfoldable pub bfs_closure : List ℕ → (ℕ → List ℕ) → ℕ → ℕ → Option (List ℕ)
unfolding bfs_loop
bfs_closure seeds adjacency target fuel =
    let found =
      bfs_loop adjacency target fuel
        (discover target seeds (record { kept = []; queue = []; full = false })) in
    elim found [ none ↦ none | some s ↦ some s.kept ]
