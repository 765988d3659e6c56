-- ===== src/Memory.antt =====
-- tools/tridb_mcp.py: the memory store over one connection.
-- The database is the memories table, its dimension once the table exists, the session's scan
-- setting and the state of the graph extension. What Postgres, pgvector and the extensions compute
-- is the parameter `Engine`; a vector literal is the list of its components, in codes that only the
-- engine reads. `with conn.transaction()` puts the database back where it began when its body
-- raises.
mod Rows
pub mod Writes
pub mod Reads
pub mod Tests
pub use Rows.{Memory, find_row, next_id, ids, known_row}
use Prim.Native.String.{String}
use text.Mathlib.Text.{◌==◌ as str_eq}
use tridb.Base.{
  ℕ, ◌+◌, Bool, true, false, not, ◌&&◌, Option, none, some, List, [], ◌∷◌, ◌++◌, map, ◌==◌,
  if◌then◌else◌, length, contains,
}
use tridb.Base.Result.{Result, ok, raised, value_error, runtime_error}

pub data Mode : Type 0 where
  fused vector other : Mode

-- One hit of a vector search, or a row of the operator joined with its memory.
pub record Hit : Type 0 where
  pub memory : Memory
  pub dist : ℕ

-- `G` is the state of graph_store_am. `tjs_open` is called with the vector, k, term_cond, m_seeds,
-- hops and the anchor.
pub record Engine : Type 1 where
  pub G : Type 0
  pub upsert_vertex : ℕ → G → ℕ × G
  pub register_edge_type : String → G → ℕ × G
  pub insert_edge : ℕ → ℕ → ℕ → G → G
  pub edge_type : String → G → Option ℕ
  pub traverse_typed : ℕ → ℕ → G → List ℕ
  pub traverse_bfs : ℕ → ℕ → ℕ → G → List ℕ
  pub vertex_count : G → ℕ
  pub visible_edge_count : G → ℕ
  pub edge_types : G → List String
  pub tjs_open : List Memory → G → List ℕ → ℕ → ℕ → ℕ → ℕ → Option ℕ → List ℕ
  pub censored : List Memory → G → List ℕ → Bool
  pub reason : List Memory → G → List ℕ → String
  pub nearest : List Memory → List ℕ → ℕ → List Memory
  pub distance : List ℕ → List ℕ → ℕ

pub record Config : Type 0 where
  pub dim : ℕ
  pub embedder : Option (String → List ℕ)
  pub term_cond : ℕ
  pub m_seeds : ℕ
  pub hops : ℕ

-- MemoryStore._resolve_vector
unfoldable pub resolve_vector : Config → Option String → Option (List ℕ) → Result (List ℕ)
resolve_vector c text (some embedding) =
    if length embedding == c.dim then ok embedding else raised value_error
resolve_vector c none none = raised value_error
resolve_vector c (some text) none = elim c.embedder [
  | none ↦ raised runtime_error
  | some encode ↦
      let vec = encode text in if length vec == c.dim then ok vec else raised runtime_error
]

-- The loop over the emitted ids: a repeated id and one without a row are passed over.
unfoldable pub emit_rows : List Memory → List ℕ → List ℕ → List Memory
emit_rows memories seen [] = []
emit_rows memories seen (i ∷ rest) = elim (contains seen i) [
  | true ↦ emit_rows memories seen rest
  | false ↦ elim (find_row memories i) [
    | none ↦ emit_rows memories seen rest
    | some m ↦ m ∷ emit_rows memories (i ∷ seen) rest
  ]
]

module _ (engine : Engine) where
  open engine use {
    G, upsert_vertex, register_edge_type, insert_edge, edge_type, traverse_typed, traverse_bfs,
    vertex_count, visible_edge_count, edge_types, tjs_open, censored, reason, nearest, distance,
  }

  pub record Db : Type 0 where
    pub dim : Option ℕ
    pub extensions : Bool
    pub indexed : Bool
    pub relaxed_order : Bool
    pub memories : List Memory
    pub graph : G

  -- A call leaves a database behind, whether it returns or raises.
  abbrev pub Exec : Type 0 → Type 0
  Exec A = Db → Result A × Db

  -- with self.conn.transaction(): ...
  abbrev pub transaction : {A : Type 0} → Exec A → Exec A
  transaction body db =
      let (r, db') = body db in elim r [ ok a ↦ (ok a, db') | raised e ↦ (raised e, db) ]

  unfoldable pub init_schema : Config → Exec ℕ
  init_schema c db =
      let opened = record db { extensions = true } in
      elim db.dim [
        | none ↦ (ok c.dim, record opened { dim = some c.dim; indexed = true })
        | some d ↦
            if d == c.dim
            then (ok c.dim, record opened { indexed = true })
            else (raised runtime_error, opened)
      ]

  -- The body of the transaction of store_memory. The table is there, and takes vectors of the length
  -- that resolve_vector has checked; other errors of SQL are left out.
  abbrev pub insert_memory : String → String → List ℕ → Exec ℕ
  insert_memory text kind vec db =
      let mid = next_id db.memories in
      let row : Memory = record { id = mid; kind = kind; text = text; embedding = vec } in
      let (vid, graph) = upsert_vertex mid db.graph in
      let db' = record db { memories = db.memories ++ row ∷ []; graph = graph } in
      (if vid == mid then ok mid else raised runtime_error, db')

  unfoldable pub store_memory : Config → String → String → Option (List ℕ) → Exec ℕ
  store_memory c text kind embedding db = elim (resolve_vector c (some text) embedding) [
    | ok vec ↦ transaction (insert_memory text kind vec) db
    | raised e ↦ (raised e, db)
  ]

  -- The body of the transaction of connect; it returns the type id.
  abbrev pub insert_link : ℕ → ℕ → String → Exec ℕ
  insert_link src_id dst_id rel db =
      if known_row db.memories src_id && known_row db.memories dst_id
      then (let (type_id, graph) = register_edge_type rel db.graph in
          (ok type_id, record db { graph = insert_edge src_id dst_id type_id graph }))
      else (raised value_error, db)

  unfoldable pub connect : ℕ → ℕ → String → Exec ℕ
  connect src_id dst_id rel = transaction (insert_link src_id dst_id rel)

  -- JOIN memories m ON m.id = x.t, in the order of the operator.
  abbrev pub joined : List Memory → List ℕ → List ℕ → List Hit
  joined memories vec [] = []
  joined memories vec (t ∷ rest) = elim (find_row memories t) [
    | some m ↦ record { memory = m; dist = distance m.embedding vec } ∷ joined memories vec rest
    | none ↦ joined memories vec rest
  ]

  pub record Recall : Type 0 where
    pub mode : Mode
    pub results : List Hit
    pub graph_censored : Option Bool
    pub termination_reason : Option String

  abbrev pub recall_with : Config → List ℕ → ℕ → Mode → Option ℕ → Exec Recall
  recall_with c vec k vector anchor db = (
    ok (record {
      mode = vector;
      results =
          map (λ m. record { memory = m; dist = distance m.embedding vec })
            (nearest db.memories vec k);
      graph_censored = none;
      termination_reason = none;
    }),
    db,
  )
  recall_with c vec k mode anchor db = (
    ok (record {
      mode = mode;
      results =
          joined db.memories vec
            (tjs_open db.memories db.graph vec k c.term_cond c.m_seeds c.hops anchor);
      graph_censored = some (censored db.memories db.graph vec);
      termination_reason = some (reason db.memories db.graph vec);
    }),
    record db { relaxed_order = true },
  )

  unfoldable pub recall :
      Config → Option String → Option (List ℕ) → ℕ → Mode → Option ℕ → Exec Recall
  recall c query_text embedding k other anchor db = (raised value_error, db)
  recall c query_text embedding k mode anchor db = elim (resolve_vector c query_text embedding) [
    | ok vec ↦ recall_with c vec k mode anchor db
    | raised e ↦ (raised e, db)
  ]

  -- GPH_EDGE_TYPE_ANY is 0.
  abbrev pub type_of_rel : Option String → G → Result ℕ
  type_of_rel none graph = ok 0
  type_of_rel (some rel) graph = elim (edge_type rel graph) [
    | some type_id ↦ ok type_id
    | none ↦ raised value_error
  ]

  unfoldable pub neighbors : ℕ → Option String → ℕ → Exec (List Memory)
  unfolding emit_rows
  neighbors id rel hops db = elim (type_of_rel rel db.graph) [
    | raised e ↦ (raised e, db)
    | ok type_id ↦
        let emitted =
          if hops == 1
          then traverse_typed id type_id db.graph
          else traverse_bfs id hops type_id db.graph in
        (ok (emit_rows db.memories [] emitted), db)
  ]

  pub record Stats : Type 0 where
    pub rows : ℕ
    pub vertices : ℕ
    pub edges : ℕ
    pub types : List String

  unfoldable pub memory_stats : Db → Stats
  memory_stats db = record {
    rows = length db.memories;
    vertices = vertex_count db.graph;
    edges = visible_edge_count db.graph;
    types = edge_types db.graph;
  }
