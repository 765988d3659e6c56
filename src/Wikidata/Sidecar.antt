-- ===== src/Wikidata/Sidecar.antt =====
-- `build_compact` of tools/wikidata_compact.py and `verify_compact_sidecar` of
-- tools/wikidata_ingest.py: the sidecar is scanned, published data first and then metadata, and
-- checked before use. A file is the list of its bytes; gzip (`pack`) and SHA-256 (`sha256`) are
-- parameters. Progress reports, temporary names and time stamps are left out.
pub mod Laws
use Prim.Native.String.{String}
use text.Mathlib.Text.{◌==◌ as str_eq}
use tridb.Base.{
  ℕ, zero, suc, ◌+◌, ◌-◌, Bool, true, false, not, ◌&&◌, Option, none, some, List, [], ◌∷◌, ◌++◌,
  ◌==◌, leb, if◌then◌else◌, length,
}
use tridb.Base.Result.{Result, ok, raised, sidecar_error, file_not_found}
use tridb.Wikidata.Compact.{Row, Batch, trim_blob}

-- What the scan has gathered: the gzip members written, by their rows, and the three counts.
pub record Scan : Type 0 where
  pub members : List (List Row)
  pub entities : ℕ
  pub usable : ℕ
  pub edges : ℕ

abbrev pub nothing_scanned : Scan
nothing_scanned = record { members = []; entities = 0; usable = 0; edges = 0 }

-- One batch: an empty blob is not written.
abbrev pub add_batch : Scan → Batch → Scan
add_batch s b = record {
  members = if length b.rows == 0 then s.members else s.members ++ b.rows ∷ [];
  entities = s.entities + b.entities;
  usable = s.usable + b.usable;
  edges = s.edges + b.edges;
}

-- `limit is not None and entities + n >= limit`
abbrev pub meets : Option ℕ → ℕ → Bool
meets none n = false
meets (some limit) n = leb limit n

abbrev pub trimmed : Option ℕ → Scan → Batch → Batch
trimmed none s b = b
trimmed (some limit) s b = trim_blob b (limit - s.entities)

-- The loop over the batches; it stops with the batch that meets the limit.
unfoldable pub scan_batches : Option ℕ → Scan → List Batch → Scan
unfolding trim_blob
scan_batches limit s [] = s
scan_batches limit s (b ∷ rest) =
    let more = scan_batches limit (add_batch s b) rest in
    if meets limit (s.entities + b.entities) then add_batch s (trimmed limit s b) else more

pub record Meta : Type 0 where
  pub lang : String
  pub limit : Option ℕ
  pub dump_size : ℕ
  pub entities : ℕ
  pub usable : ℕ
  pub edges : ℕ
  pub compact_size : ℕ
  pub compact_sha256 : List ℕ

-- What stands under the metadata's name.
pub data MetaFile : Type 0 where
  missing not_json not_object lacks_key : MetaFile
  metadata : Meta → MetaFile

pub record Disk : Type 0 where
  pub compact : Option (List ℕ)
  pub meta_file : MetaFile

-- os.replace of the data, then of the metadata; `done` of the two have taken place.
unfoldable pub publish : Disk → List ℕ → Meta → ℕ → Disk
publish disk bytes m zero = disk
publish disk bytes m (suc zero) = record disk { compact = some bytes }
publish disk bytes m (suc (suc done)) = record { compact = some bytes; meta_file = metadata m }

abbrev pub bytes_eq : List ℕ → List ℕ → Bool
bytes_eq [] [] = true
bytes_eq (x ∷ xs) (y ∷ ys) = x == y && bytes_eq xs ys
bytes_eq _ _ = false

-- `dump.exists() and cmeta["dump_size"] != dump.stat().st_size`
abbrev pub other_dump : Option ℕ → Meta → Bool
other_dump none m = false
other_dump (some size) m = not (m.dump_size == size)

abbrev pub is_limited : Meta → Bool
is_limited m = elim m.limit [ none ↦ false | some n ↦ true ]

module _ (pack : List Row → List ℕ) (sha256 : List ℕ → List ℕ) where
  abbrev pub written : List (List Row) → List ℕ
  written [] = []
  written (rows ∷ rest) = pack rows ++ written rest

  -- The bytes and the metadata that build_compact publishes.
  unfoldable pub build_compact : String → Option ℕ → ℕ → List Batch → List ℕ × Meta
  unfolding scan_batches
  build_compact lang limit dump_size batches =
      let s = scan_batches limit nothing_scanned batches in
      let bytes = written s.members in
      (
        bytes,
        record {
          lang = lang;
          limit = limit;
          dump_size = dump_size;
          entities = s.entities;
          usable = s.usable;
          edges = s.edges;
          compact_size = length bytes;
          compact_sha256 = sha256 bytes;
        },
      )

  -- The checks on a complete metadata record, in the order of the code.
  abbrev pub verify_meta : Option (List ℕ) → Option ℕ → String → Meta → Result Meta
  verify_meta compact dump lang m =
      if not (str_eq m.lang lang)
      then raised sidecar_error
      else if is_limited m
      then raised sidecar_error
      else if other_dump dump m
      then raised sidecar_error
      else elim compact [
        | none ↦ raised file_not_found
        | some bytes ↦
            if not (m.compact_size == length bytes)
            then raised sidecar_error
            else if not (bytes_eq m.compact_sha256 (sha256 bytes))
            then raised sidecar_error
            else ok m
      ]

  unfoldable pub verify_compact_sidecar : Disk → Option ℕ → String → Result Meta
  verify_compact_sidecar disk dump lang = elim disk.meta_file [
    | metadata m ↦ verify_meta disk.compact dump lang m
    | _ ↦ raised sidecar_error
  ]
