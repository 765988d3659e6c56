-- ===== src/Wikidata/Emit/Laws.antt =====
-- The emit pass of tools/wikidata_ingest.py on the dump path: its result and its totals.
use mathlib.Core.Path.{subst}
use tridb.Base.{
  sym, ℕ, ◌+◌, ◌/◌, ◌≤◌, ◌<◌, ◌≡◌, refl, ◌⊎◌, inl, inr, none, some, List, [], ◌∷◌, length, arith,
  Option-cases,
}
use tridb.Base.Result.{Result, ok, raised}
use tridb.Wikidata.Statements.{Edge, Entity, ParsedEntity}
use tridb.Wikidata.Closure.{present_ids}
use tridb.Wikidata.Shards.{ShardWriter, new_writer, write, totals}
use tridb.Wikidata.Shards.Laws.{Position, writer_at, IsAt, write_first, write_at, totals-close}
use tridb.Wikidata.Emit.{
  Document, objects, slice_edges, line_of, Emission, emitted, emit, finish, Slice, emit_slice,
}
use tridb.Wikidata.Emit.Kept.{
  kept_entities, intra, all_edges, survivors, survivors-kept_entities, length-slice_edges,
}

edges-partition :
    (present : List ℕ) (src : ℕ) (edges : List Edge)
    → length (slice_edges present src edges).0 + (slice_edges present src edges).1 ≡ length edges
edges-partition present src [] = refl
edges-partition present src ((pid, dst) ∷ rest) = ground (arith, edges-partition present src rest)

-- Where the loop ends, from ordinal `n`, `g` written and `d` dropped edges.
abbrev pub Ends : ℕ → ℕ → ℕ → ℕ → Result Emission → Type 0
Ends shard_size n g d r =
    (p : Position) × (r
      ≡ ok (record { writer = writer_at shard_size p; ordinal = n; dropped_edges = d }))
    × IsAt shard_size n g p

module _ (present : List ℕ) (shard_size : ℕ) (h : 0 < shard_size) where
  dropped : List ParsedEntity → ℕ
  dropped [] = 0
  dropped (e ∷ rest) = (slice_edges present e.id e.edges).1 + dropped rest

  emit_skip :
      (s : Emission) (obj : Entity) (rest : List Entity)
      → emitted present obj ≡ none
      → emit present s (obj ∷ rest) ≡ emit present s rest
  unfolding emit
  emit_skip s obj rest gone = ground arith

  emit_take :
      (s : Emission) (obj : Entity) (rest : List Entity) (ent : ParsedEntity) (w : ShardWriter)
      → emitted present obj ≡ some ent
      → let (edges, lost) = slice_edges present ent.id ent.edges in
        write s.ordinal (line_of ent) edges ent.id s.writer ≡ ok w
        → emit present s (obj ∷ rest)
          ≡ emit present
              (record {
                writer = w;
                ordinal = s.ordinal + 1;
                dropped_edges = s.dropped_edges + lost;
              })
              rest
  unfolding emit
  emit_take s obj rest ent w there wrote = ground arith

  survivors_skip :
      (obj : Entity) (rest : List Entity)
      → emitted present obj ≡ none
      → survivors present (obj ∷ rest) ≡ survivors present rest
  survivors_skip obj rest gone = ground arith

  survivors_take :
      (obj : Entity) (rest : List Entity) (ent : ParsedEntity)
      → emitted present obj ≡ some ent
      → survivors present (obj ∷ rest) ≡ ent ∷ survivors present rest
  survivors_take obj rest ent there = ground arith

  -- The counts that the rest of the loop leads to.
  abbrev Counts : List ParsedEntity → ℕ → ℕ → ℕ → ℕ → ℕ → ℕ → Type 0
  Counts ents n g d total_n total_g total_d =
      (n + length ents ≡ total_n)
      × (g + intra present ents ≡ total_g)
      × (d + dropped ents ≡ total_d)

  Ends-rest :
      (objs : List Entity) (n g d total_n total_g total_d : ℕ) (p : Position)
      → Counts (survivors present objs) n g d total_n total_g total_d
      → IsAt shard_size n g p
      → Ends shard_size total_n total_g total_d (
          emit present
            (record { writer = writer_at shard_size p; ordinal = n; dropped_edges = d })
            objs)
  unfolding emit dropped
  Ends-rest [] n g d total_n total_g total_d p (en, eg, ed) a =
      let here : n ≡ total_n = omega (arith, en) in
      (
        p,
        ground arith,
        record {
          low = subst (λ m. p.i ≤ m / shard_size) here a.low;
          below = a.below;
          entity_rows = omega (arith, en, a.entity_rows);
          edge_rows = omega (arith, eg, a.edge_rows);
          claim_rows = omega (arith, en, a.claim_rows);
        },
      )
  Ends-rest (obj ∷ rest) n g d total_n total_g total_d p c a =
      elim (Option-cases (emitted present obj)) [
        | inl gone ↦
            subst (Ends shard_size total_n total_g total_d) (sym (emit_skip _ obj rest gone)) (
              Ends-rest rest n g d total_n total_g total_d p
                (subst (λ l. Counts l n g d total_n total_g total_d) (survivors_skip obj rest gone)
                  c)
                a)
        | inr (ent, there) ↦
            let (edges, lost) = slice_edges present ent.id ent.edges in
            let (p', wrote, a') = write_at shard_size n g p (line_of ent) edges ent.id h a in
            let c' =
              subst (λ l. Counts l n g d total_n total_g total_d)
                (survivors_take obj rest ent there) c in
            subst (Ends shard_size total_n total_g total_d)
              (sym (emit_take _ obj rest ent _ there wrote))
              (Ends-rest rest (n + 1) (g + length edges) (d + lost) total_n total_g total_d p'
                (
                  omega (arith, c'.0),
                  omega (arith, c'.1, length-slice_edges present ent.id ent.edges),
                  omega (arith, c'.2),
                )
                a')
      ]

  -- What emit_slice returns for the dump's entities in `objs`.
  pub Emitted : List Entity → Result Slice → Type 0
  Emitted objs r =
      (slice : Slice) × (r ≡ ok slice)
      × (slice.present ≡ length present)
      × (let ents = kept_entities present objs in
          (slice.totals_of ≡ (length ents, intra present ents, length ents))
          × (intra present ents + slice.dropped_edges_dangling ≡ all_edges ents))

  start_emission : Emission
  start_emission = record { writer = new_writer shard_size; ordinal = 0; dropped_edges = 0 }

  dropped-all_edges :
      (ents : List ParsedEntity) → intra present ents + dropped ents ≡ all_edges ents
  unfolding dropped
  dropped-all_edges [] = refl
  dropped-all_edges (e ∷ ents) = omega (
    arith,
    dropped-all_edges ents,
    edges-partition present e.id e.edges,
    length-slice_edges present e.id e.edges,
  )

  -- The loop from the start: nothing was emitted, or the writer stands in its place.
  abbrev Started : List ParsedEntity → Result Emission → Type 0
  Started ents r =
      ((ents ≡ []) × (r ≡ ok start_emission))
      ⊎ Ends shard_size (length ents) (intra present ents) (dropped ents) r

  Started-emit :
      (objs : List Entity) → Started (survivors present objs) (emit present start_emission objs)
  unfolding emit dropped start_emission
  Started-emit [] = inl (refl, refl)
  Started-emit (obj ∷ rest) = elim (Option-cases (emitted present obj)) [
    | inl gone ↦
        subst (λ l. Started l (emit present start_emission (obj ∷ rest)))
          (sym (survivors_skip obj rest gone))
          (subst (Started (survivors present rest)) (sym (emit_skip start_emission obj rest gone))
            (Started-emit rest))
    | inr (ent, there) ↦
        let (edges, lost) = slice_edges present ent.id ent.edges in
        let (p, wrote, a) = write_first shard_size (line_of ent) edges ent.id h in
        subst (λ l. Started l (emit present start_emission (obj ∷ rest)))
          (sym (survivors_take obj rest ent there))
          (subst (Started (ent ∷ survivors present rest))
            (sym (emit_take start_emission obj rest ent _ there wrote))
            (inr (
              Ends-rest rest 1 (length edges) (0 + lost) (length (ent ∷ survivors present rest))
                (intra present (ent ∷ survivors present rest))
                (dropped (ent ∷ survivors present rest)) p
                (
                  omega arith,
                  omega (arith, length-slice_edges present ent.id ent.edges),
                  omega arith,
                )
                a)))
  ]

  finished :
      (ents : List ParsedEntity) (objs : List Entity) (r : Result Emission)
      → survivors present objs ≡ ents
      → Started ents r
      → Emitted objs (elim r [ raised e ↦ raised e | ok s ↦ ok (finish present s) ])
  unfolding Emitted start_emission totals
  finished ents objs r e (inl (none_left, done)) =
      rw (done, sym (survivors-kept_entities present objs), e, none_left)
        (finish present start_emission, refl, refl, (refl, refl))
  finished ents objs r e (inr (p, done, a)) =
      rw (done, sym (survivors-kept_entities present objs), e)
        (
          finish present (record {
            writer = writer_at shard_size p;
            ordinal = length ents;
            dropped_edges = dropped ents;
          }),
          refl,
          refl,
          (totals-close shard_size (length ents) (intra present ents) p a, dropped-all_edges ents),
        )

-- On the dump path, with shards of at least one entity, emit_slice never raises, whatever the shard
-- size. It reports how many ids are present; its totals are the number of the dump's entities that
-- parse and whose id is present, the number of their edges whose target is present, and again the
-- number of entities, for the claims lines; the edges that it reports as dropped are all the other
-- edges of these entities.
pub emit_slice_total :
    (dump : List Document) (kept : List ℕ) (shard_size : ℕ) (h : 0 < shard_size)
    → Emitted
        (present_ids kept [] (objects dump))
        shard_size
        h
        (objects dump)
        (emit_slice dump kept shard_size none)
unfolding emit_slice start_emission
emit_slice_total dump kept shard_size h =
    let present = present_ids kept [] (objects dump) in
    finished present shard_size h (survivors present (objects dump)) (objects dump) _ refl
      (Started-emit present shard_size h (objects dump))
