-- ===== src/Wikidata/Emit.antt =====
-- `emit_slice` and `_iter_kept_entities` of tools/wikidata_ingest.py: the pass that writes the
-- shards. The documents come with what the anchored head of their raw line gives, if it matches.
pub mod Kept
pub mod Laws
pub mod Agree
use tridb.Base.{
  ℕ, zero, suc, ◌+◌, Bool, true, false, not, Option, none, some, List, [], ◌∷◌, ◌++◌, map, length,
  if◌then◌else◌, contains,
}
use tridb.Base.Result.{Result, ok, raised}
use tridb.Wikidata.Statements.{Edge, Entity, ParsedEntity, entity_id, parse_entity}
use tridb.Wikidata.Compact.{Row}
use tridb.Wikidata.Closure.{present_ids, present_ids_compact}
use tridb.Wikidata.Shards.{
  EntityLine, EdgeLine, Shard, ShardWriter, new_writer, close_current, write, totals,
}

-- A document of the dump and the Q-id that `_HEAD_QID` finds at the start of its raw line.
pub record Document : Type 0 where
  pub head : Option ℕ
  pub object : Entity

abbrev pub objects : List Document → List Entity
objects docs = map (λ d. d.object) docs

-- _iter_kept_entities
unfoldable pub iter_kept_entities : List ℕ → List Document → List Entity
iter_kept_entities present [] = []
iter_kept_entities present (d ∷ rest) =
    let more = iter_kept_entities present rest in
    elim d.head [
      | none ↦ d.object ∷ more
      | some qid ↦ if contains present qid then d.object ∷ more else more
    ]

-- The targets that are present become edges, the others are counted.
abbrev pub slice_edges : List ℕ → ℕ → List Edge → List EdgeLine × ℕ
slice_edges present src [] = ([], 0)
slice_edges present src ((pid, dst) ∷ rest) =
    let (edges, dropped) = slice_edges present src rest in
    if contains present dst
    then (record { src = src; pid = pid; dst = dst } ∷ edges, dropped)
    else (edges, dropped + 1)

abbrev pub line_of : ParsedEntity → EntityLine
line_of ent = record { id = ent.id; label = ent.label; description = ent.description }

-- The writer, the next ordinal and `dropped_edges`.
pub record Emission : Type 0 where
  pub writer : ShardWriter
  pub ordinal : ℕ
  pub dropped_edges : ℕ

-- An entity that is emitted: one whose Q-id is present and that parses.
abbrev pub emitted : List ℕ → Entity → Option ParsedEntity
emitted present obj = elim (entity_id obj) [
  | none ↦ none
  | some eid ↦ if contains present eid then parse_entity obj else none
]

-- The loop of emit_slice.
unfoldable pub emit : List ℕ → Emission → List Entity → Result Emission
emit present s [] = ok s
emit present s (obj ∷ rest) = elim (emitted present obj) [
  | none ↦ emit present s rest
  | some ent ↦
      let (edges, dropped) = slice_edges present ent.id ent.edges in
      elim (write s.ordinal (line_of ent) edges ent.id s.writer) [
        | raised e ↦ raised e
        | ok w ↦
            emit present
              (record {
                writer = w;
                ordinal = s.ordinal + 1;
                dropped_edges = s.dropped_edges + dropped;
              })
              rest
      ]
]

-- The manifest part that emit_slice returns.
pub record Slice : Type 0 where
  pub writer : ShardWriter
  pub totals_of : ℕ × ℕ × ℕ
  pub dropped_edges_dangling : ℕ
  pub present : ℕ

abbrev pub finish : List ℕ → Emission → Slice
finish present s =
    let w = close_current s.writer in
    record {
      writer = w;
      totals_of = totals w;
      dropped_edges_dangling = s.dropped_edges;
      present = length present;
    }

unfoldable pub emit_slice : List Document → List ℕ → ℕ → Option (List Row) → Result Slice
unfolding emit totals
emit_slice dump kept shard_size compact =
    let present : List ℕ = elim compact [
      | some rows ↦ present_ids_compact kept [] rows
      | none ↦ present_ids kept [] (objects dump)
    ] in
    let entities : List Entity = elim compact [
      | some rows ↦ iter_kept_entities present dump
      | none ↦ objects dump
    ] in
    let start : Emission = record {
      writer = new_writer shard_size;
      ordinal = 0;
      dropped_edges = 0;
    } in
    elim (emit present start entities) [ raised e ↦ raised e | ok s ↦ ok (finish present s) ]
