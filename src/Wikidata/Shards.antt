-- ===== src/Wikidata/Shards.antt =====
-- `_ShardWriter` of tools/wikidata_ingest.py: three streams of shard files, rotated together every
-- `shard_size` entities. The output directory holds no shard file at the start; a file is the list
-- of the records written to it. The shards stand newest first, and `_idx` of -1 is `none`.
pub mod Laws
use Prim.Native.String.{String}
use tridb.Base.{
  ℕ, zero, suc, ◌+◌, ◌/◌, Bool, true, false, not, Option, none, some, List, [], ◌∷◌, ◌++◌, map,
  ◌==◌, if◌then◌else◌, length, contains, sum,
}
use tridb.Base.Result.{Result, ok, raised, value_error, zero_division}

-- One line of the entities, of the edges and of the claims stream.
pub record EntityLine : Type 0 where
  pub id : ℕ
  pub label : String
  pub description : String

pub record EdgeLine : Type 0 where
  pub src : ℕ
  pub pid : ℕ
  pub dst : ℕ

-- The entry of a shard in the manifest: its file, by its index, and its rows.
pub record Shard : Type 0 where
  pub index : ℕ
  pub rows : ℕ

-- What the open files of the current shard hold.
pub record Open : Type 0 where
  pub entities : List EntityLine
  pub edges : List EdgeLine
  pub claims : List ℕ

pub record ShardWriter : Type 0 where
  pub shard_size : ℕ
  pub entities_shards : List Shard
  pub edges_shards : List Shard
  pub claims_shards : List Shard
  pub idx : Option ℕ
  pub files : Option Open
  pub erows : ℕ
  pub grows : ℕ
  pub crows : ℕ
  pub opened_shards : List ℕ
  pub closed : List (ℕ × Open)

abbrev pub new_writer : ℕ → ShardWriter
new_writer shard_size = record {
  shard_size = shard_size;
  entities_shards = [];
  edges_shards = [];
  claims_shards = [];
  idx = none;
  files = none;
  erows = 0;
  grows = 0;
  crows = 0;
  opened_shards = [];
  closed = [];
}

-- `shards[-1]["rows"] = n`
abbrev pub set_rows : List Shard → ℕ → List Shard
set_rows [] n = []
set_rows (s ∷ rest) n = record s { rows = n } ∷ rest

abbrev pub index_of : Option ℕ → ℕ
index_of none = 0
index_of (some i) = i

-- _close_current; the handles stay set, closed.
abbrev pub close_current : ShardWriter → ShardWriter
close_current w = elim w.files [
  | none ↦ w
  | some open_files ↦ record w {
    entities_shards = set_rows w.entities_shards w.erows;
    edges_shards = set_rows w.edges_shards w.grows;
    claims_shards = set_rows w.claims_shards w.crows;
    closed = (index_of w.idx, open_files) ∷ w.closed;
  }
]

abbrev pub empty_shard : ℕ → Shard
empty_shard i = record { index = i; rows = 0 }

-- _rotate
abbrev pub rotate : ℕ → ShardWriter → Result ShardWriter
rotate shard_idx w =
    if contains w.opened_shards shard_idx
    then raised value_error
    else (let c = close_current w in
        ok (record c {
          idx = some shard_idx;
          opened_shards = shard_idx ∷ w.opened_shards;
          files = some (record { entities = []; edges = []; claims = [] });
          erows = 0;
          grows = 0;
          crows = 0;
          entities_shards = empty_shard shard_idx ∷ c.entities_shards;
          edges_shards = empty_shard shard_idx ∷ c.edges_shards;
          claims_shards = empty_shard shard_idx ∷ c.claims_shards;
        }))

abbrev pub is_current : Option ℕ → ℕ → Bool
is_current none shard_idx = false
is_current (some i) shard_idx = shard_idx == i

-- The lines that one entity adds to the open files, and their counts.
abbrev pub append_lines : EntityLine → List EdgeLine → ℕ → ShardWriter → ShardWriter
append_lines entity edges claims w = elim w.files [
  | none ↦ w
  | some f ↦ record w {
    files = some (record {
      entities = f.entities ++ entity ∷ [];
      edges = f.edges ++ edges;
      claims = f.claims ++ claims ∷ [];
    });
    erows = w.erows + 1;
    grows = w.grows + length edges;
    crows = w.crows + 1;
  }
]

-- write; the claims line is named by its entity's id.
unfoldable pub write : ℕ → EntityLine → List EdgeLine → ℕ → ShardWriter → Result ShardWriter
write ordinal entity edges claims w =
    if w.shard_size == 0
    then raised zero_division
    else (let shard_idx = ordinal / w.shard_size in
        if is_current w.idx shard_idx
        then ok (append_lines entity edges claims w)
        else (elim (rotate shard_idx w) [
          | raised e ↦ raised e
          | ok t ↦ ok (append_lines entity edges claims t)
        ]))

abbrev pub rows_total : List Shard → ℕ
rows_total shards = sum (map (λ s. s.rows) shards)

unfoldable pub totals : ShardWriter → ℕ × ℕ × ℕ
totals w = (rows_total w.entities_shards, rows_total w.edges_shards, rows_total w.claims_shards)
