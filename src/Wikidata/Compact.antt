-- ===== src/Wikidata/Compact.antt =====
-- The sidecar rows of tools/wikidata_compact.py, `qid<TAB>usable<TAB>edges`, as records; the text
-- of a row and its compression are left out.
use tridb.Base.{ℕ, Bool, Option, none, some, List, [], ◌∷◌, length, count, take, sum, map}
use tridb.Wikidata.Statements.{
  Edge, Entity, Line, iter_entities, entity_id, entity_edges, is_usable,
}

pub record Row : Type 0 where
  pub qid : ℕ
  pub usable : Bool
  pub edges : List Edge

-- The row of one entity; an entity whose id is no Q-id has none.
unfoldable pub row_of : Entity → Option Row
row_of obj = elim (entity_id obj) [
  | none ↦ none
  | some qid ↦ some (record { qid = qid; usable = is_usable obj; edges = entity_edges obj.claims })
]

-- `compact_batch`: the rows of a batch with its three counts.
pub record Batch : Type 0 where
  pub rows : List Row
  pub entities : ℕ
  pub usable : ℕ
  pub edges : ℕ

unfoldable pub rows_of : List Entity → List Row
unfolding row_of
rows_of [] = []
rows_of (obj ∷ rest) = elim (row_of obj) [ none ↦ rows_of rest | some r ↦ r ∷ rows_of rest ]

abbrev pub counted : List Row → Batch
counted rows = record {
  rows = rows;
  entities = length rows;
  usable = count (λ r. r.usable) rows;
  edges = sum (map (λ r. length r.edges) rows);
}

unfoldable pub compact_batch : List Line → Batch
unfolding rows_of
compact_batch lines = counted (rows_of (iter_entities lines))

-- `_trim_blob`: the first rows of a batch, counted again.
unfoldable pub trim_blob : Batch → ℕ → Batch
trim_blob b limit = counted (take limit b.rows)
