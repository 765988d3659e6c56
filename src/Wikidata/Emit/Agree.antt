-- ===== src/Wikidata/Emit/Agree.antt =====
-- The emit pass of tools/wikidata_ingest.py on the compact path, beside the dump path.
use mathlib.Core.Path.{subst}
use tridb.Base.{
  sym, ap, ◌∙◌, ℕ, ◌+◌, ◌≡◌, refl, ◌⊎◌, inl, inr, true, false, none, some, List, [], ◌∷◌, contains,
  arith, Bool-cases, Option-cases, All,
}
use tridb.Base.Result.{Result, ok, raised, Result-cases}
use tridb.Wikidata.Statements.{Entity, entity_id}
use tridb.Wikidata.Compact.{rows_of}
use tridb.Wikidata.Closure.{present_ids}
use tridb.Wikidata.Closure.Agree.{compact_agrees}
use tridb.Wikidata.Shards.{new_writer, write}
use tridb.Wikidata.Emit.{
  Document, objects, iter_kept_entities, slice_edges, line_of, Emission, emitted, emit, finish,
  Slice, emit_slice,
}

-- The guard reads the entity's own id, when it reads any.
abbrev pub IsSound : Document → Type 0
IsSound d = (d.head ≡ none) ⊎ (d.head ≡ entity_id d.object)

emit_cong :
    (present : List ℕ) (s : Emission) (obj : Entity) (a b : List Entity)
    → ((t : Emission) → emit present t a ≡ emit present t b)
    → emit present s (obj ∷ a) ≡ emit present s (obj ∷ b)
unfolding emit
emit_cong present s obj a b h = elim (Option-cases (emitted present obj)) [
  | inl gone ↦ ground (arith, h s)
  | inr (ent, there) ↦
      let (edges, lost) = slice_edges present ent.id ent.edges in
      elim (Result-cases (write s.ordinal (line_of ent) edges ent.id s.writer)) [
        | inr (e, bad) ↦ ground arith
        | inl (w, good) ↦ ground (
          arith,
          h (record {
            writer = w;
            ordinal = s.ordinal + 1;
            dropped_edges = s.dropped_edges + lost;
          }),
        )
      ]
]

skipped :
    (present : List ℕ) (d : Document) (qid : ℕ)
    → IsSound d
    → d.head ≡ some qid
    → contains present qid ≡ false
    → emitted present d.object ≡ none
skipped present d qid (inl miss) there out = cc
skipped present d qid (inr hit) there out = ground arith

head_miss :
    (present : List ℕ) (d : Document) (rest : List Document)
    → d.head ≡ none
    → iter_kept_entities present (d ∷ rest) ≡ d.object ∷ iter_kept_entities present rest
unfolding iter_kept_entities
head_miss present d rest h = ground arith

head_kept :
    (present : List ℕ) (d : Document) (rest : List Document) (qid : ℕ)
    → d.head ≡ some qid
    → contains present qid ≡ true
    → iter_kept_entities present (d ∷ rest) ≡ d.object ∷ iter_kept_entities present rest
unfolding iter_kept_entities
head_kept present d rest qid h k = ground arith

head_out :
    (present : List ℕ) (d : Document) (rest : List Document) (qid : ℕ)
    → d.head ≡ some qid
    → contains present qid ≡ false
    → iter_kept_entities present (d ∷ rest) ≡ iter_kept_entities present rest
unfolding iter_kept_entities
head_out present d rest qid h k = ground arith

emit-none :
    (present : List ℕ) (s : Emission) (obj : Entity) (rest : List Entity)
    → emitted present obj ≡ none
    → emit present s (obj ∷ rest) ≡ emit present s rest
unfolding emit
emit-none present s obj rest gone = ground arith

emit-kept :
    (present : List ℕ) (docs : List Document)
    → All IsSound docs
    → (s : Emission)
    → emit present s (iter_kept_entities present docs) ≡ emit present s (objects docs)
unfolding emit iter_kept_entities
emit-kept present [] h s = refl
emit-kept present (d ∷ rest) (sound, h) s = elim (Option-cases d.head) [
  | inl miss ↦
      subst (λ l. emit present s l ≡ emit present s (objects (d ∷ rest)))
        (sym (head_miss present d rest miss))
        (emit_cong present s d.object (iter_kept_entities present rest) (objects rest)
          (emit-kept present rest h))
  | inr (qid, there) ↦ elim (Bool-cases (contains present qid)) [
    | inl kept ↦
        subst (λ l. emit present s l ≡ emit present s (objects (d ∷ rest)))
          (sym (head_kept present d rest qid there kept))
          (emit_cong present s d.object (iter_kept_entities present rest) (objects rest)
            (emit-kept present rest h))
    | inr out ↦
        ap (emit present s) (head_out present d rest qid there out)
        ∙ emit-kept present rest h s
        ∙ sym (emit-none present s d.object (objects rest) (skipped present d qid sound there out))
  ]
]

abbrev slice_of : ℕ → List ℕ → List Entity → Result Slice
slice_of shard_size present entities =
    elim (emit present (record { writer = new_writer shard_size; ordinal = 0; dropped_edges = 0 })
      entities) [ raised e ↦ raised e | ok s ↦ ok (finish present s) ]

-- When the head of a raw line, where it matches, gives the entity's own id, the compact path with
-- the dump's sidecar emits what the dump path emits.
pub emit_slice-compact :
    (dump : List Document) (kept : List ℕ) (shard_size : ℕ)
    → All IsSound dump
    → emit_slice dump kept shard_size (some (rows_of (objects dump)))
      ≡ emit_slice dump kept shard_size none
unfolding emit_slice
emit_slice-compact dump kept shard_size h =
    let (_, _, same) = compact_agrees (objects dump) 0 0 0 [] kept in
    ap (λ p. slice_of shard_size p (iter_kept_entities p dump)) same
    ∙ ap
        (λ r. elim r [
          | raised e ↦ raised e
          | ok s ↦ ok (finish (present_ids kept [] (objects dump)) s)
        ])
        (emit-kept (present_ids kept [] (objects dump)) dump h _)
