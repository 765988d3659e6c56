-- ===== src/Memory/Tests.antt =====
-- The theorems on tools/tridb_mcp.py over a concrete engine.
use tridb.Base.{
  ℕ, ◌≡◌, refl, ◌⊎◌, true, false, Option, none, some, List, [], ◌∷◌, map, length, take, keep, ◌==◌,
}
use tridb.Base.Result.{Error, ok, raised}
use tridb.Memory.{Memory, ids, Engine, Config, Db, store_memory}
use tridb.Memory.Rows.{Dense}
use tridb.Memory.Writes.{Stored, store_memory_atomic, Write, store, link, serve, serve-Dense}

abbrev keep_from : ℕ → List (ℕ × ℕ) → List (ℕ × ℕ)
keep_from i edges = keep (λ (e : ℕ × ℕ). e.0 == i) edges

-- Edges as pairs, one edge type; the vertex of a memory gets the memory's id.
abbrev toy : Engine
toy = record {
  G = List (ℕ × ℕ);
  upsert_vertex = λ i g. (i, g);
  register_edge_type = λ rel g. (1, g);
  insert_edge = λ src dst t g. (src, dst) ∷ g;
  edge_type = λ rel g. some 1;
  traverse_typed = λ i t g. map (λ (e : ℕ × ℕ). e.1) (keep_from i g);
  traverse_bfs = λ i hops t g. map (λ (e : ℕ × ℕ). e.1) g;
  vertex_count = λ g. length g;
  visible_edge_count = λ g. length g;
  edge_types = λ g. "cites" ∷ [];
  tjs_open = λ rows g vec k c m h anchor. take k (ids rows);
  censored = λ rows g vec. false;
  reason = λ rows g vec. "stream exhausted";
  nearest = λ rows vec k. take k rows;
  distance = λ a b. length a;
}

abbrev config : Config
config = record { dim = 2; embedder = none; term_cond = 50; m_seeds = 10; hops = 2 }

abbrev memory_at : ℕ → Memory
memory_at i = record { id = i; kind = "note"; text = "t"; embedding = 1 ∷ 2 ∷ [] }

abbrev db : Db toy
db = record {
  dim = some 2;
  extensions = true;
  indexed = true;
  relaxed_order = false;
  memories = memory_at 0 ∷ memory_at 1 ∷ [];
  graph = (0, 1) ∷ [];
}

abbrev given : Option (List ℕ)
given = some (3 ∷ 4 ∷ [])

store_memory_atomic_example :
    ((e : Error) × (store_memory toy config "new" "note" given db ≡ (raised e, db)))
    ⊎ ((mid : ℕ) × (db' : Db toy) × (store_memory toy config "new" "note" given db ≡ (ok mid, db'))
        × Stored toy config "new" "note" given db db' mid)
store_memory_atomic_example = store_memory_atomic toy config "new" "note" given db

abbrev requests : List (Write toy)
requests = store "a" "note" given ∷ link 0 9 "cites" ∷ store "b" "note" none ∷ link 0 2 "cites" ∷ []

serve-Dense_example : Dense 0 (serve toy config requests db).memories
serve-Dense_example = serve-Dense toy config requests db (refl, (refl, tt))
