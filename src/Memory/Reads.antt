-- ===== src/Memory/Reads.antt =====
-- The reads of tools/tridb_mcp.py: which rows they return, in which order, and what they change.
use Prim.Native.String.{String}
use mathlib.Core.Path.{subst}
use tridb.Base.{
  sym, keep, ℕ, ◌≡◌, refl, ap, ◌⊎◌, inl, inr, ◌&&◌, not, true, false, Option, none, some, List, [],
  ◌∷◌, arith, ◌==◌, if◌then◌else◌, Bool-cases, contains, Distinct, Option-cases, All, map,
}
use tridb.Base.Result.{Error, ok, raised, value_error}
use tridb.Memory.{
  Memory, ids, find_row, known_row, Engine, Config, resolve_vector, Db, fused, vector, other, Hit,
  joined, Recall, recall, type_of_rel, emit_rows, neighbors,
}
use tridb.Memory.Rows.{id-find_row}

contains-emit_rows :
    (rows : List Memory) (seen emitted : List ℕ) (i : ℕ)
    → contains (ids (emit_rows rows seen emitted)) i
      ≡ (contains emitted i && known_row rows i && not (contains seen i))
unfolding emit_rows
contains-emit_rows rows seen [] i = refl
contains-emit_rows rows seen (j ∷ rest) i = elim (Bool-cases (contains seen j)) [
  | inl old ↦ ground (arith, contains-emit_rows rows seen rest i)
  | inr new ↦ elim (Option-cases (find_row rows j)) [
    | inl gone ↦ ground (arith, contains-emit_rows rows seen rest i)
    | inr (m, there) ↦
        ground (arith, contains-emit_rows rows (j ∷ seen) rest i, id-find_row rows j m there)
  ]
]

-- Each row is the table's row for its id, and no id stands twice.
abbrev pub Rows : List Memory → List Memory → Type 0
Rows rows out = All (λ m. find_row rows m.id ≡ some m) out × Distinct (ids out)

emit_rows_skip :
    (rows : List Memory) (seen : List ℕ) (j : ℕ) (rest : List ℕ)
    → (contains seen j ≡ true) ⊎ (find_row rows j ≡ none)
    → emit_rows rows seen (j ∷ rest) ≡ emit_rows rows seen rest
unfolding emit_rows
emit_rows_skip rows seen j rest h = ground arith

emit_rows_take :
    (rows : List Memory) (seen : List ℕ) (j : ℕ) (rest : List ℕ) (m : Memory)
    → contains seen j ≡ false
    → find_row rows j ≡ some m
    → emit_rows rows seen (j ∷ rest) ≡ m ∷ emit_rows rows (j ∷ seen) rest
unfolding emit_rows
emit_rows_take rows seen j rest m h k = ground arith

add_row :
    (rows : List Memory) (seen : List ℕ) (j : ℕ) (rest : List ℕ) (m : Memory)
    → find_row rows j ≡ some m
    → Rows rows (emit_rows rows (j ∷ seen) rest)
    → Rows rows (m ∷ emit_rows rows (j ∷ seen) rest)
add_row rows seen j rest m there (found, once) =
    let e = id-find_row rows j m there in
    (
      (subst (λ n. find_row rows n ≡ some m) (sym e) there, found),
      (ground (arith, contains-emit_rows rows (j ∷ seen) rest m.id), once),
    )

type_of_rel-cases :
    (engine : Engine) (rel : Option String) (graph : engine.G)
    → ((t : ℕ) × (type_of_rel engine rel graph ≡ ok t))
      ⊎ (type_of_rel engine rel graph ≡ raised value_error)
type_of_rel-cases engine none graph = inl (0, refl)
type_of_rel-cases engine (some rel) graph = elim (Option-cases (engine.edge_type rel graph)) [
  | inl gone ↦ inr (ground arith)
  | inr (t, there) ↦ inl (t, ground arith)
]

emit_rows-Rows :
    (rows : List Memory) (seen emitted : List ℕ) → Rows rows (emit_rows rows seen emitted)
unfolding emit_rows
emit_rows-Rows rows seen [] = (tt, tt)
emit_rows-Rows rows seen (j ∷ rest) = elim (Bool-cases (contains seen j)) [
  | inl old ↦
      subst (Rows rows) (sym (emit_rows_skip rows seen j rest (inl old)))
        (emit_rows-Rows rows seen rest)
  | inr new ↦ elim (Option-cases (find_row rows j)) [
    | inl gone ↦
        subst (Rows rows) (sym (emit_rows_skip rows seen j rest (inr gone)))
          (emit_rows-Rows rows seen rest)
    | inr (m, there) ↦
        subst (Rows rows) (sym (emit_rows_take rows seen j rest m new there))
          (add_row rows seen j rest m there (emit_rows-Rows rows (j ∷ seen) rest))
  ]
]

module _ (engine : Engine) where
  open engine use {G, tjs_open, traverse_typed, traverse_bfs, edge_type}

  -- What the engine emits for one request of `neighbors`.
  abbrev pub emitted : ℕ → ℕ → ℕ → Db engine → List ℕ
  emitted id type_id hops db =
      if hops == 1
      then traverse_typed id type_id db.graph
      else traverse_bfs id hops type_id db.graph

  -- `neighbors` changes nothing. With a relation that has no type it raises ValueError; otherwise
  -- it returns rows of the table, no id twice, for exactly those emitted ids that have a row.
  neighbors_total :
      (id hops : ℕ) (rel : Option String) (db : Db engine)
      → ((type_of_rel engine rel db.graph ≡ raised value_error)
          × (neighbors engine id rel hops db ≡ (raised value_error, db)))
        ⊎ ((type_id : ℕ) × (out : List Memory) × (type_of_rel engine rel db.graph ≡ ok type_id)
            × (neighbors engine id rel hops db ≡ (ok out, db))
            × Rows db.memories out
            × ((i : ℕ)
                → contains (ids out) i
                  ≡ (contains (emitted id type_id hops db) i && known_row db.memories i)))
  unfolding neighbors
  neighbors_total id hops rel db = elim (type_of_rel-cases engine rel db.graph) [
    | inr bad ↦ inl (bad, ground arith)
    | inl (type_id, good) ↦
        let found = emitted id type_id hops db in
        inr (
          type_id,
          emit_rows db.memories [] found,
          good,
          ground arith,
          emit_rows-Rows db.memories [] found,
          λ i. ground (arith, contains-emit_rows db.memories [] found i),
        )
  ]

  ids-joined :
      (rows : List Memory) (vec found : List ℕ)
      → map (λ (h : Hit). h.memory.id) (joined engine rows vec found) ≡ keep (known_row rows) found
  ids-joined rows vec [] = refl
  ids-joined rows vec (i ∷ rest) = elim (Option-cases (find_row rows i)) [
    | inl gone ↦ ground (arith, ids-joined rows vec rest)
    | inr (m, there) ↦ ground (arith, ids-joined rows vec rest, id-find_row rows i m there)
  ]

  memories-hits :
      (vec : List ℕ) (rows : List Memory)
      → map
          (λ (h : Hit). h.memory)
          (map (λ m. record { memory = m; dist = engine.distance m.embedding vec }) rows)
        ≡ rows
  memories-hits vec [] = refl
  memories-hits vec (m ∷ rest) = ap (λ l. m ∷ l) (memories-hits vec rest)

  abbrev fused_recall : Config → List ℕ → ℕ → Option ℕ → Db engine → Recall engine
  fused_recall c vec k anchor db = record {
    mode = fused;
    results =
        joined engine db.memories vec
          (tjs_open db.memories db.graph vec k c.term_cond c.m_seeds c.hops anchor);
    graph_censored = some (engine.censored db.memories db.graph vec);
    termination_reason = some (engine.reason db.memories db.graph vec);
  }

  abbrev vector_recall : List ℕ → ℕ → Db engine → Recall engine
  vector_recall vec k db = record {
    mode = vector;
    results =
        map (λ m. record { memory = m; dist = engine.distance m.embedding vec })
          (engine.nearest db.memories vec k);
    graph_censored = none;
    termination_reason = none;
  }

  -- A recall in another mode, or without a vector of the right dimension, raises and changes
  -- nothing. A fused recall returns the operator's ids that have a row, in the operator's order,
  -- with its censoring flag and termination reason, and sets the session to relaxed order; a
  -- vector recall returns the nearest rows, with neither, and sets nothing.
  recall_total :
      (c : Config) (text : Option String) (embedding : Option (List ℕ)) (k : ℕ) (anchor : Option ℕ)
      (db : Db engine)
      → (recall engine c text embedding k other anchor db ≡ (raised value_error, db))
        × ((e : Error)
            → resolve_vector c text embedding ≡ raised e
            → (recall engine c text embedding k fused anchor db ≡ (raised e, db))
              × (recall engine c text embedding k vector anchor db ≡ (raised e, db)))
        × ((vec : List ℕ)
            → resolve_vector c text embedding ≡ ok vec
            → ((r : Recall engine) × (recall engine c text embedding k fused anchor db
                  ≡ (ok r, record db { relaxed_order = true }))
                × (map (λ (h : Hit). h.memory.id) r.results
                    ≡ keep
                        (known_row db.memories)
                        (tjs_open db.memories db.graph vec k c.term_cond c.m_seeds c.hops anchor))
                × (r.graph_censored ≡ some (engine.censored db.memories db.graph vec))
                × (r.termination_reason ≡ some (engine.reason db.memories db.graph vec)))
              × ((r : Recall engine) × (recall engine c text embedding k vector anchor db
                    ≡ (ok r, db))
                  × (map (λ (h : Hit). h.memory) r.results ≡ engine.nearest db.memories vec k)
                  × (r.graph_censored ≡ none)
                  × (r.termination_reason ≡ none)))
  unfolding recall
  recall_total c text embedding k anchor db = (
    refl,
    λ e bad. (ground arith, ground arith),
    λ vec good. (
      (fused_recall c vec k anchor db, ground arith, ids-joined db.memories vec _, refl, refl),
      (
        vector_recall vec k db,
        ground arith,
        memories-hits vec (engine.nearest db.memories vec k),
        refl,
        refl,
      ),
    ),
  )
