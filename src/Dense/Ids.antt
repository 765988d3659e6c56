-- ===== src/Dense/Ids.antt =====
-- The dense map of tools/wikidata_engine_load.py.
use tridb.Base.{
  sym, ap, ◌∙◌, ℕ, suc, ◌≡◌, refl, Bool, true, false, Option, none, some, List, [], ◌∷◌, ◌++◌, ◌==◌,
  if◌then◌else◌, length, contains, Distinct, Distinct-concat, All, firsts, append_nil, append_assoc,
  Bool-cases, Option-cases, inl, inr, arith,
}
use mathlib.Core.Bool.{true≢false}
use tridb.Base.Result.{ok}
use tridb.Base.Text.{Text}
use tridb.Dense.{
  DenseMap, no_entities, find, is_some, add_entity, add_entities, add_shard, build_dense_map,
}

abbrev pub shifted : Option ℕ → Option ℕ
shifted none = none
shifted (some i) = some (suc i)

-- The place of an id in a list.
abbrev pub place_of : List ℕ → ℕ → Option ℕ
place_of [] q = none
place_of (x ∷ xs) q = let later = place_of xs q in if x == q then some 0 else shifted later

-- Each dense id is the place of its Q-id in the order of emission, and no Q-id stands twice.
pub record IsDense (m : DenseMap) : Type 0 where
  pub places : (q : ℕ) → find m.qid_to_dense q ≡ place_of m.dense_to_qid q
  pub distinct : Distinct m.dense_to_qid

abbrev first_of : Option ℕ → Option ℕ → Option ℕ
first_of (some i) later = some i
first_of none later = later

find-append :
    (d : List (ℕ × ℕ)) (k v q : ℕ)
    → find (d ++ (k, v) ∷ []) q ≡ first_of (find d q) (if k == q then some v else none)
find-append [] k v q = refl
find-append ((x, y) ∷ rest) k v q = elim (Bool-cases (x == q)) [
  | inl here ↦ rw here refl
  | inr there ↦ rw there (find-append rest k v q)
]

shifted-first_of :
    (o : Option ℕ) (b : Bool) (n : ℕ)
    → shifted (first_of o (if b then some n else none))
      ≡ first_of (shifted o) (if b then some (suc n) else none)
shifted-first_of (some i) b n = refl
shifted-first_of none true n = refl
shifted-first_of none false n = refl

place_of-append :
    (xs : List ℕ) (k q : ℕ)
    → place_of (xs ++ k ∷ []) q
      ≡ first_of (place_of xs q) (if k == q then some (length xs) else none)
place_of-append [] k q = refl
place_of-append (x ∷ xs) k q = elim (Bool-cases (x == q)) [
  | inl here ↦ rw here refl
  | inr there ↦
      rw there (
        ap shifted (place_of-append xs k q) ∙ shifted-first_of (place_of xs q) (k == q) (length xs))
]

is_some-shifted : (o : Option ℕ) → is_some (shifted o) ≡ is_some o
is_some-shifted none = refl
is_some-shifted (some i) = refl

is_some-place_of : (xs : List ℕ) (q : ℕ) → is_some (place_of xs q) ≡ contains xs q
is_some-place_of [] q = refl
is_some-place_of (x ∷ xs) q = elim (Bool-cases (x == q)) [
  | inl here ↦ rw here refl
  | inr there ↦ rw there (is_some-shifted (place_of xs q) ∙ is_some-place_of xs q)
]

add_entity-IsDense : (q : ℕ) (m : DenseMap) → IsDense m → IsDense (add_entity q m)
add_entity-IsDense q m h = elim (Bool-cases (is_some (find m.qid_to_dense q))) [
  | inl old ↦ rw old h
  | inr new ↦ rw new (record {
    places = λ r.
        find-append m.qid_to_dense q (length m.dense_to_qid) r
        ∙ ap (λ o. first_of o (if q == r then some (length m.dense_to_qid) else none)) (h.places r)
        ∙ sym (place_of-append m.dense_to_qid q r);
    distinct =
        Distinct-concat m.dense_to_qid q h.distinct
          (sym (is_some-place_of m.dense_to_qid q) ∙ ap is_some (sym (h.places q)) ∙ new);
  })
]

add_entities-IsDense :
    (rows : List (Option ℕ)) (m : DenseMap) → IsDense m → IsDense (add_entities rows m)
unfolding add_entities
add_entities-IsDense [] m h = h
add_entities-IsDense (none ∷ rest) m h = add_entities-IsDense rest m h
add_entities-IsDense (some q ∷ rest) m h =
    add_entities-IsDense rest (add_entity q m) (add_entity-IsDense q m h)

-- The rows of all the shards, in their order.
abbrev pub all_rows : (Text → Option (List (Option ℕ))) → List Text → List (Option ℕ)
all_rows read [] = []
all_rows read (path ∷ rest) =
    let later = all_rows read rest in elim (read path) [ none ↦ later | some rows ↦ rows ++ later ]

-- The ids of the rows that are not blank.
abbrev pub row_ids : List (Option ℕ) → List ℕ
row_ids [] = []
row_ids (none ∷ rows) = row_ids rows
row_ids (some q ∷ rows) = q ∷ row_ids rows

add_entities-append :
    (xs ys : List (Option ℕ)) (m : DenseMap)
    → add_entities ys (add_entities xs m) ≡ add_entities (xs ++ ys) m
unfolding add_entities
add_entities-append [] ys m = refl
add_entities-append (none ∷ xs) ys m = add_entities-append xs ys m
add_entities-append (some q ∷ xs) ys m = add_entities-append xs ys (add_entity q m)

build_dense_map-all_rows :
    (read : Text → Option (List (Option ℕ))) (paths : List Text) (m : DenseMap)
    → All (λ path. is_some (read path) ≡ true) paths
    → build_dense_map read paths m ≡ ok (add_entities (all_rows read paths) m)
unfolding build_dense_map add_shard add_entities
build_dense_map-all_rows read [] m there = refl
build_dense_map-all_rows read (path ∷ rest) m there = elim (Option-cases (read path)) [
  | inl missing ↦ absurd (true≢false (sym there.0 ∙ ap is_some missing))
  | inr (rows, found) ↦
      rw (build_dense_map, all_rows, found)
        (build_dense_map-all_rows read rest (add_entities rows m) there.1
          ∙ ap ok (add_entities-append rows (all_rows read rest) m))
]

dense_to_qid-add_entities :
    (rows : List (Option ℕ)) (m : DenseMap)
    → IsDense m
    → (add_entities rows m).dense_to_qid
      ≡ m.dense_to_qid ++ firsts contains m.dense_to_qid (row_ids rows)
unfolding add_entities
dense_to_qid-add_entities [] m h = sym (append_nil m.dense_to_qid)
dense_to_qid-add_entities (none ∷ rest) m h = dense_to_qid-add_entities rest m h
dense_to_qid-add_entities (some q ∷ rest) m h =
    let known : contains m.dense_to_qid q ≡ is_some (find m.qid_to_dense q) =
      sym (is_some-place_of m.dense_to_qid q) ∙ ap is_some (sym (h.places q)) in
    let ih = dense_to_qid-add_entities rest (add_entity q m) (add_entity-IsDense q m h) in
    let grown = λ (d : List ℕ). d ++ firsts contains d (row_ids rest) in
    elim (Bool-cases (is_some (find m.qid_to_dense q))) [
      | inl old ↦
          let same : (add_entity q m).dense_to_qid ≡ m.dense_to_qid = ground (arith, old) in
          rw (known ∙ old) (ih ∙ ap grown same)
      | inr new ↦
          let more : (add_entity q m).dense_to_qid ≡ m.dense_to_qid ++ q ∷ [] =
            ground (arith, new) in
          rw (known ∙ new) (ih ∙ ap grown more ∙ append_assoc m.dense_to_qid (q ∷ []) _)
    ]

-- When all the shards are there, the dense map is built: it lists the ids of the shards' rows, in
-- their order, each where it stands first; its lookup gives each Q-id its place in that list, and
-- `none` to those that are not in it.
pub build_dense_map-IsDense :
    (read : Text → Option (List (Option ℕ))) (paths : List Text)
    → All (λ path. is_some (read path) ≡ true) paths
    → (t : DenseMap) × (build_dense_map read paths no_entities ≡ ok t)
      × (t.dense_to_qid ≡ firsts contains [] (row_ids (all_rows read paths)))
      × IsDense t
build_dense_map-IsDense read paths there =
    let rows = all_rows read paths in
    let start : IsDense no_entities = record { places = λ q. refl; distinct = tt } in
    (
      add_entities rows no_entities,
      build_dense_map-all_rows read paths no_entities there,
      dense_to_qid-add_entities rows no_entities start,
      add_entities-IsDense rows no_entities start,
    )
