-- ===== src/Wikidata/Closure/Agree.antt =====
-- The slice of the compact path of tools/wikidata_ingest.py, on the sidecar of
-- tools/wikidata_compact.py, beside that of the dump path.
use mathlib.Core.Path.{fun_ext}
use tridb.Base.{
  sym, ℕ, ◌≡◌, refl, ap, some, List, [], ◌∷◌, if◌then◌else◌, contains, insert, arith, Option-cases,
  inl, inr,
}
use tridb.Wikidata.Statements.{Entity, ParsedEntity, entity_id, entity_edges, parse_entity}
use tridb.Wikidata.Compact.{rows_of}
use tridb.Wikidata.Closure.{
  prefix_ids, prefix_ids_compact, collect, scan, scan_compact, hops_loop, set_of, closure_ids,
  closure_ids_compact, present_ids, present_ids_compact,
}

scan-rows_of :
    (kept frontier : List ℕ) (dump : List Entity) (next : List ℕ)
    → scan kept frontier dump next ≡ scan_compact kept frontier (rows_of dump) next
unfolding scan scan_compact rows_of
scan-rows_of kept frontier [] next = refl
scan-rows_of kept frontier (obj ∷ rest) next = elim (Option-cases (entity_id obj)) [
  | inl gone ↦ ground (arith, scan-rows_of kept frontier rest next)
  | inr (eid, there) ↦ ground (
    arith,
    scan-rows_of kept frontier rest
        (if contains frontier eid then collect kept (entity_edges obj.claims) next else next),
  )
]

-- An entity that parses has a Q-id, and it is the parsed id.
pub parse_entity-id :
    (obj : Entity) (e : ParsedEntity) → parse_entity obj ≡ some e → entity_id obj ≡ some e.id
unfolding parse_entity
parse_entity-id obj e h = ground arith

prefix-rows_of :
    (limit : ℕ) (kept : List ℕ) (dump : List Entity)
    → prefix_ids limit kept dump ≡ prefix_ids_compact limit kept (rows_of dump)
unfolding prefix_ids prefix_ids_compact rows_of
prefix-rows_of limit kept [] = refl
prefix-rows_of limit kept (obj ∷ rest) = elim (Option-cases (parse_entity obj)) [
  | inl gone ↦ ground (arith, prefix-rows_of limit kept rest)
  | inr (e, there) ↦
      ground (arith, parse_entity-id obj e there, prefix-rows_of limit (insert kept e.id) rest)
]

present-rows_of :
    (kept present : List ℕ) (dump : List Entity)
    → present_ids kept present dump ≡ present_ids_compact kept present (rows_of dump)
unfolding present_ids present_ids_compact rows_of
present-rows_of kept present [] = refl
present-rows_of kept present (obj ∷ rest) = elim (Option-cases (entity_id obj)) [
  | inl gone ↦ ground (arith, present-rows_of kept present rest)
  | inr (eid, there) ↦ elim (Option-cases (parse_entity obj)) [
    | inl bad ↦ ground (arith, present-rows_of kept present rest)
    | inr (e, good) ↦ ground (
      arith,
      present-rows_of kept (if contains kept eid then insert present eid else present) rest,
    )
  ]
]

-- On the rows that the sidecar scan writes for a dump, the three slice computations return what
-- they return on the dump: the prefix, the closure with its number of hops, for any fuel, and the
-- ids that are present.
pub compact_agrees :
    (dump : List Entity) (limit fuel target : ℕ) (seeds kept : List ℕ)
    → (prefix_ids_compact limit [] (rows_of dump) ≡ prefix_ids limit [] dump)
      × (closure_ids_compact fuel (rows_of dump) seeds target ≡ closure_ids fuel dump seeds target)
      × (present_ids_compact kept [] (rows_of dump) ≡ present_ids kept [] dump)
unfolding closure_ids closure_ids_compact
compact_agrees dump limit fuel target seeds kept = (
  sym (prefix-rows_of limit [] dump),
  ap (λ s. hops_loop s target fuel (set_of seeds []) (set_of seeds []) 0)
      (fun_ext (λ k. fun_ext (λ f. sym (scan-rows_of k f dump [])))),
  sym (present-rows_of kept [] dump),
)
