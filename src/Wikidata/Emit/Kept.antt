-- ===== src/Wikidata/Emit/Kept.antt =====
-- The entities and edges that emit_slice of tools/wikidata_ingest.py keeps, described by the dump.
use tridb.Base.{
  keep, count, contains, Bool-cases, ℕ, ◌≡◌, refl, inl, inr, none, some, List, [], ◌∷◌, map, length,
  sum, arith, Option-cases,
}
use tridb.Wikidata.Statements.{Edge, Entity, ParsedEntity, entity_id, parse_entity}
use tridb.Wikidata.Emit.{slice_edges, emitted}

-- The entities that parse, and those of them that are present.
abbrev pub usable : List Entity → List ParsedEntity
usable [] = []
usable (obj ∷ rest) = elim (parse_entity obj) [ none ↦ usable rest | some ent ↦ ent ∷ usable rest ]

abbrev pub kept_entities : List ℕ → List Entity → List ParsedEntity
kept_entities present objs = keep (λ (e : ParsedEntity). contains present e.id) (usable objs)

-- The edges of the entities whose targets are present, and all their edges.
abbrev pub intra : List ℕ → List ParsedEntity → ℕ
intra present ents =
    sum (map (λ (e : ParsedEntity). count (λ (edge : Edge). contains present edge.1) e.edges) ents)

abbrev pub all_edges : List ParsedEntity → ℕ
all_edges ents = sum (map (λ (e : ParsedEntity). length e.edges) ents)

-- What the loop emits.
abbrev pub survivors : List ℕ → List Entity → List ParsedEntity
survivors present [] = []
survivors present (obj ∷ rest) = elim (emitted present obj) [
  | none ↦ survivors present rest
  | some ent ↦ ent ∷ survivors present rest
]

-- A document that parses has the id of its parsed entity.
entity_id-parse_entity :
    (obj : Entity) (ent : ParsedEntity) → parse_entity obj ≡ some ent → entity_id obj ≡ some ent.id
unfolding parse_entity
entity_id-parse_entity obj ent h = ground (arith, h)

pub survivors-kept_entities :
    (present : List ℕ) (objs : List Entity) → survivors present objs ≡ kept_entities present objs
survivors-kept_entities present [] = refl
survivors-kept_entities present (obj ∷ rest) =
    let ih = survivors-kept_entities present rest in
    elim (Option-cases (parse_entity obj)) [
      | inl gone ↦ ground (arith, gone, ih)
      | inr (ent, there) ↦ elim (Bool-cases (contains present ent.id)) [
        | inl kept ↦ ground (arith, there, kept, ih, entity_id-parse_entity obj ent there)
        | inr other ↦ ground (arith, there, other, ih, entity_id-parse_entity obj ent there)
      ]
    ]

pub length-slice_edges :
    (present : List ℕ) (src : ℕ) (edges : List Edge)
    → length (slice_edges present src edges).0
      ≡ count (λ (edge : Edge). contains present edge.1) edges
length-slice_edges present src [] = refl
length-slice_edges present src ((pid, dst) ∷ rest) =
    ground (arith, length-slice_edges present src rest)
