-- ===== src/Wikidata/Tests.antt =====
-- The theorems on tools/wikidata_ingest.py and tools/wikidata_compact.py at concrete inputs.
use Prim.Native.String.{String}
use tridb.Base.{
  ◌==◌, ◌+◌, if◌then◌else◌, ℕ, true, ◌<◌, ◌≡◌, refl, ◌⊎◌, inl, inr, none, some, List, [], ◌∷◌, map,
  arith, All,
}
use tridb.Base.Result.{Error, raised}
use tridb.Wikidata.Statements.{Statement, Entity, qid_to_int, entity_id}
use tridb.Wikidata.Compact.{Row, Batch, counted, rows_of}
use tridb.Wikidata.Closure.{
  prefix_ids, prefix_ids_compact, closure_ids, closure_ids_compact, present_ids,
  present_ids_compact,
}
use tridb.Wikidata.Closure.Agree.{compact_agrees}
use tridb.Wikidata.Closure.{bfs_closure}
use tridb.Wikidata.Closure.Reached.{IsClosure, bfs_closure_total}
use tridb.Wikidata.Emit.{Document, objects, emit_slice}
use tridb.Wikidata.Emit.Laws.{Emitted, emit_slice_total}
use tridb.Wikidata.Emit.Agree.{IsSound, emit_slice-compact}
use tridb.Wikidata.Sidecar.{Meta, metadata, Disk, publish, build_compact, verify_compact_sidecar}
use tridb.Wikidata.Sidecar.Laws.{Accepts, publish-crash_safe}

-- A statement whose value is an item.
abbrev names : String → Statement
names qid = record {
  rank = some "normal";
  mainsnak = record {
    snaktype = some "value";
    value_type = some "wikibase-entityid";
    value_id = some qid;
  };
}

abbrev item : String → String → List Statement → Entity
item qid label statements = record {
  type = some "item";
  id = some qid;
  label = some label;
  description = none;
  claims = ("P50", statements) ∷ [];
}

abbrev dump : List Document
dump =
    record { head = some 1; object = item "Q1" "one" (names "Q2" ∷ names "Q9" ∷ []) }
    ∷ record { head = none; object = item "Q2" "two" (names "Q1" ∷ []) }
    ∷ record { head = some 9; object = item "Q9" "" [] }
    ∷ []

leading_zero : qid_to_int "Q042" ≡ none
unfolding qid_to_int
leading_zero = refl

compact_agrees_example :
    (prefix_ids_compact 2 [] (rows_of (objects dump)) ≡ prefix_ids 2 [] (objects dump))
    × (closure_ids_compact 4 (rows_of (objects dump)) (1 ∷ []) 3
        ≡ closure_ids 4 (objects dump) (1 ∷ []) 3)
    × (present_ids_compact (1 ∷ 9 ∷ []) [] (rows_of (objects dump))
        ≡ present_ids (1 ∷ 9 ∷ []) [] (objects dump))
compact_agrees_example = compact_agrees (objects dump) 2 4 3 (1 ∷ []) (1 ∷ 9 ∷ [])

abbrev one_each : ◌<◌ 0 1
one_each = omega arith

emit_slice_total_example :
    Emitted
      (present_ids (1 ∷ 2 ∷ 9 ∷ []) [] (objects dump))
      1
      one_each
      (objects dump)
      (emit_slice dump (1 ∷ 2 ∷ 9 ∷ []) 1 none)
emit_slice_total_example = emit_slice_total dump (1 ∷ 2 ∷ 9 ∷ []) 1 one_each

dump-IsSound : All IsSound dump
unfolding entity_id
dump-IsSound = (inr refl, (inl refl, (inr refl, tt)))

emit_slice-compact_example :
    emit_slice dump (1 ∷ 2 ∷ 9 ∷ []) 1 (some (rows_of (objects dump)))
    ≡ emit_slice dump (1 ∷ 2 ∷ 9 ∷ []) 1 none
emit_slice-compact_example = emit_slice-compact dump (1 ∷ 2 ∷ 9 ∷ []) 1 dump-IsSound

abbrev pack_ids : List Row → List ℕ
pack_ids rows = map (λ r. r.qid) rows

abbrev whole_file : List ℕ → List ℕ
whole_file bytes = bytes

abbrev row_at : ℕ → Row
row_at qid = record { qid = qid; usable = true; edges = [] }

abbrev batches : List Batch
batches = counted (row_at 4 ∷ row_at 5 ∷ []) ∷ counted (row_at 6 ∷ row_at 7 ∷ []) ∷ []

abbrev old_meta : Meta
old_meta = record {
  lang = "en";
  limit = none;
  dump_size = 90;
  entities = 1;
  usable = 1;
  edges = 0;
  compact_size = 1;
  compact_sha256 = 3 ∷ [];
}

abbrev old_disk : Disk
old_disk = record { compact = some (3 ∷ []); meta_file = metadata old_meta }

-- A crash between the two replacements.
publish-crash_safe_example :
    let (bytes, m) = build_compact pack_ids whole_file "en" none 100 batches in
    let left = publish old_disk bytes m 1 in
    ((e : Error) × (verify_compact_sidecar pack_ids whole_file left (some 90) "en" ≡ raised e))
    ⊎ (Accepts pack_ids whole_file left (some 90) "en" (3 ∷ []) old_meta
        ⊎ Accepts pack_ids whole_file left (some 90) "en" bytes m)
publish-crash_safe_example =
    publish-crash_safe pack_ids whole_file old_disk (3 ∷ []) old_meta (some 90) "en" none 100 1
      batches (refl, refl, refl) (λ same. same)

-- A cycle with a tail.
abbrev next_of : ℕ → List ℕ
next_of n = if n == 3 then 1 ∷ 5 ∷ [] else (n + 1) ∷ []

bfs_closure_total_example :
    (kept : List ℕ) × (bfs_closure (1 ∷ 1 ∷ []) next_of 4 6 ≡ some kept)
    × IsClosure next_of (1 ∷ 1 ∷ []) 4 kept
bfs_closure_total_example = bfs_closure_total (1 ∷ 1 ∷ []) next_of 4 6 (omega arith)
