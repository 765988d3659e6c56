-- ===== src/Memory/Writes.antt =====
-- The writes of tools/tridb_mcp.py, and what each leaves in the database.
use Prim.Native.String.{String}
use mathlib.Core.Path.{subst}
use tridb.Base.{
  ap, sym, ◌∙◌, ℕ, ◌≡◌, ◌≢◌, refl, ◌⊎◌, inl, inr, Option, none, some, List, [], ◌∷◌, ◌++◌, arith,
  Bool-cases, ◌==◌,
}
use tridb.Base.Result.{Error, Result-cases, Result, ok, raised, value_error, runtime_error}
use tridb.Memory.{
  find_row, next_id, Engine, Config, resolve_vector, Db, init_schema, insert_memory, store_memory,
  connect,
}
use tridb.Memory.Rows.{Dense, find_row-next_id, next_id-Dense, Dense-concat}

module _ (engine : Engine) where
  open engine use {G, upsert_vertex, register_edge_type, insert_edge}

  -- What a store that returned `mid` has done: the id is one past the largest and was free, the table grew by one row with
  -- that id, the text, the kind and the resolved vector, the graph by its vertex, which has the
  -- same id, and nothing else changed.
  pub record Stored (c : Config) (text kind : String) (embedding : Option (List ℕ))
      (old new : Db engine) (mid : ℕ) : Type 0 where
    pub vec : List ℕ
    pub resolved : resolve_vector c (some text) embedding ≡ ok vec
    pub next : mid ≡ next_id old.memories
    pub fresh : find_row old.memories mid ≡ none
    pub row :
        new.memories
        ≡ old.memories ++ record { id = mid; kind = kind; text = text; embedding = vec } ∷ []
    pub vertex : upsert_vertex mid old.graph ≡ (mid, new.graph)
    pub rest :
        (new.dim ≡ old.dim)
        × (new.extensions ≡ old.extensions)
        × (new.indexed ≡ old.indexed)
        × (new.relaxed_order ≡ old.relaxed_order)

  -- Whatever the request, store_memory either raises and leaves the database as it was, or returns
  -- a free id and has stored the row and its vertex under it.
  pub store_memory_atomic :
      (c : Config) (text kind : String) (embedding : Option (List ℕ)) (db : Db engine)
      → ((e : Error) × (store_memory engine c text kind embedding db ≡ (raised e, db)))
        ⊎ ((mid : ℕ) × (db' : Db engine) × (store_memory engine c text kind embedding db
              ≡ (ok mid, db'))
            × Stored c text kind embedding db db' mid)
  unfolding store_memory
  store_memory_atomic c text kind embedding db =
      elim (Result-cases (resolve_vector c (some text) embedding)) [
        | inr (e, bad) ↦ inl (e, ground arith)
        | inl (vec, good) ↦
            let mid = next_id db.memories in
            let (vid, graph) = upsert_vertex mid db.graph in
            elim (Bool-cases (vid == mid)) [
              | inr drift ↦ inl (runtime_error, ground arith)
              | inl same ↦ inr (
                mid,
                (insert_memory engine text kind vec db).1,
                ground arith,
                record {
                  vec = vec;
                  resolved = good;
                  next = refl;
                  fresh = find_row-next_id db.memories mid (omega arith);
                  row = refl;
                  vertex = ground arith;
                  rest = (refl, refl, refl, refl);
                },
              )
            ]
      ]

  -- connect raises ValueError and changes nothing exactly when one of the two ids has no row;
  -- otherwise it returns the type id that the engine registered for the relation, and the graph
  -- alone has changed, by that registration and the one edge.
  connect_total :
      (src dst : ℕ) (rel : String) (db : Db engine)
      → ((find_row db.memories src ≡ none) ⊎ (find_row db.memories dst ≡ none)
          → connect engine src dst rel db ≡ (raised value_error, db))
        × (find_row db.memories src ≢ none
            → find_row db.memories dst ≢ none
            → let (type_id, graph) = register_edge_type rel db.graph in
              connect engine src dst rel db
              ≡ (ok type_id, record db { graph = insert_edge src dst type_id graph }))
  unfolding connect
  connect_total src dst rel db = (λ h. ground arith, λ h k. ground arith)

  -- The requests that write.
  pub data Write : Type 0 where
    store : String → String → Option (List ℕ) → Write
    link : ℕ → ℕ → String → Write

  abbrev pub perform : Config → Write → Db engine → Db engine
  perform c (store text kind embedding) db = (store_memory engine c text kind embedding db).1
  perform c (link src dst rel) db = (connect engine src dst rel db).1

  -- A server's life: each request runs on what the last left, raising or not.
  abbrev pub serve : Config → List Write → Db engine → Db engine
  serve c [] db = db
  serve c (w ∷ rest) db = serve c rest (perform c w db)

  memories-connect :
      (src dst : ℕ) (rel : String) (db : Db engine)
      → (connect engine src dst rel db).1.memories ≡ db.memories
  unfolding connect
  memories-connect src dst rel db = ground arith

  perform-Dense :
      (c : Config) (w : Write) (db : Db engine)
      → Dense 0 db.memories
      → Dense 0 (perform c w db).memories
  perform-Dense c (store text kind embedding) db d =
      elim (store_memory_atomic c text kind embedding db) [
        | inl (e, p) ↦ subst (Dense 0) (ap (λ (x : Result ℕ × Db engine). x.1.memories) (sym p)) d
        | inr (mid, db', p, s) ↦
            subst (Dense 0) (sym (ap (λ (x : Result ℕ × Db engine). x.1.memories) p ∙ s.row)) (
              Dense-concat 0 db.memories _ d
                (ground (arith, s.next, next_id-Dense 0 db.memories d)))
      ]
  perform-Dense c (link src dst rel) db d = rw (memories-connect src dst rel db) d

  -- From a table whose ids are 0, 1, 2 and so on in order of insertion, every sequence of writes,
  -- failing ones among them, whatever the engine answers, leads to such a table.
  pub serve-Dense :
      (c : Config) (writes : List Write) (db : Db engine)
      → Dense 0 db.memories
      → Dense 0 (serve c writes db).memories
  serve-Dense c [] db d = d
  serve-Dense c (w ∷ rest) db d = serve-Dense c rest (perform c w db) (perform-Dense c w db d)

  -- A second init_schema with one configuration changes nothing more, whether the first returned
  -- or raised, and it answers as the first did.
  init_schema_idem :
      (c : Config) (db : Db engine)
      → init_schema engine c (init_schema engine c db).1
        ≡ ((init_schema engine c db).0, (init_schema engine c db).1)
  unfolding init_schema
  init_schema_idem c db = ground arith
