-- ===== src/Dense.antt =====
-- The dense ids of tools/wikidata_engine_load.py, and what bench/wikidata_h2h.py reads of the same
-- slice. A directory is a function from a path to the rows of the file, `none` where there is no
-- file; a row is what its line says, and a blank line is `none`. The loops run over the paths that
-- shard_paths gives; the counters of iter_kept_edges are left out.
pub mod Ids
pub mod Parity
pub mod Types
pub mod Reach
pub mod Tests
use tridb.Base.{
  ℕ, ◌+◌, Bool, true, false, Option, none, some, List, [], ◌∷◌, ◌++◌, ◌==◌, leb, if◌then◌else◌,
  length, contains, insert,
}
use tridb.Base.Sort.{sort}
use tridb.Base.Result.{Error, file_not_found, Result, ok, raised, ◌>>=◌}
use tridb.Base.Text.{Text, mem_text}

-- dict.fromkeys(paths)
abbrev pub shard_paths : List Text → List Text → List Text
shard_paths seen [] = []
shard_paths seen (path ∷ rest) =
    let old = shard_paths seen rest in
    let new = path ∷ shard_paths (path ∷ seen) rest in if mem_text seen path then old else new

-- A dictionary of ids.
abbrev pub find {ℓ} : {A : Type ℓ} → List (ℕ × A) → ℕ → Option A
find [] key = none
find ((k, v) ∷ rest) key = let later = find rest key in if k == key then some v else later

-- `key in d`, of what `find` gives.
abbrev pub is_some {ℓ} : {A : Type ℓ} → Option A → Bool
is_some none = false
is_some (some a) = true

pub record DenseMap : Type 0 where
  pub qid_to_dense : List (ℕ × ℕ)
  pub dense_to_qid : List ℕ

abbrev pub no_entities : DenseMap
no_entities = record { qid_to_dense = []; dense_to_qid = [] }

-- One row: `if q not in qid_to_dense`.
abbrev pub add_entity : ℕ → DenseMap → DenseMap
add_entity q m = if is_some (find m.qid_to_dense q) then m else record {
  qid_to_dense = m.qid_to_dense ++ (q, length m.dense_to_qid) ∷ [];
  dense_to_qid = m.dense_to_qid ++ q ∷ [];
}

unfoldable pub add_entities : List (Option ℕ) → DenseMap → DenseMap
add_entities [] m = m
add_entities (none ∷ rest) m = add_entities rest m
add_entities (some q ∷ rest) m = add_entities rest (add_entity q m)

-- One shard: reading one that is missing raises.
unfoldable pub add_shard : Option (List (Option ℕ)) → DenseMap → Result DenseMap
unfolding add_entities
add_shard none m = raised file_not_found
add_shard (some rows) m = ok (add_entities rows m)

unfoldable pub build_dense_map :
    (Text → Option (List (Option ℕ))) → List Text → DenseMap → Result DenseMap
unfolding add_shard
build_dense_map read [] m = ok m
build_dense_map read (path ∷ rest) m =
    add_shard (read path) m >>= λ m'. build_dense_map read rest m'

-- A line of an edge shard: three numbers, or no edge.
abbrev pub EdgeRow : Type 0
EdgeRow = Option (ℕ × ℕ × ℕ)

abbrev pub Lookup : Type 0
Lookup = ℕ → Option ℕ

-- The rows of a shard; a shard that is missing is skipped.
abbrev pub rows_in : Option (List EdgeRow) → List EdgeRow
rows_in none = []
rows_in (some rows) = rows

-- `if s is None or d is None: continue`, and `yield s, p, d`.
abbrev pub yielded : Option ℕ → Option ℕ → ℕ → List (ℕ × ℕ × ℕ)
yielded none d p = []
yielded (some s) none p = []
yielded (some s) (some d) p = (s, p, d) ∷ []

abbrev pub kept_edges : Lookup → List EdgeRow → List (ℕ × ℕ × ℕ)
kept_edges qmap [] = []
kept_edges qmap (none ∷ rest) = kept_edges qmap rest
kept_edges qmap (some (s, p, d) ∷ rest) = yielded (qmap s) (qmap d) p ++ kept_edges qmap rest

-- iter_kept_edges
unfoldable pub iter_kept_edges :
    (Text → Option (List EdgeRow)) → Lookup → List Text → List (ℕ × ℕ × ℕ)
iter_kept_edges read qmap [] = []
iter_kept_edges read qmap (path ∷ rest) =
    kept_edges qmap (rows_in (read path)) ++ iter_kept_edges read qmap rest

abbrev pub Adjacency : Type 0
Adjacency = List (ℕ × List (ℕ × ℕ))

-- adj.setdefault(s, []).append((p, d))
abbrev pub append_edge : Adjacency → ℕ → ℕ × ℕ → Adjacency
append_edge [] s e = (s, e ∷ []) ∷ []
append_edge ((x, es) ∷ rest) s e =
    let later = append_edge rest s e in if x == s then (x, es ++ e ∷ []) ∷ rest else (x, es) ∷ later

abbrev pub append_ends : Option ℕ → Option ℕ → ℕ → Adjacency → Adjacency
append_ends none d p adj = adj
append_ends (some s) none p adj = adj
append_ends (some s) (some d) p adj = append_edge adj s (p, d)

abbrev pub adj_rows : Lookup → List EdgeRow → Adjacency → Adjacency
adj_rows qmap [] adj = adj
adj_rows qmap (none ∷ rest) adj = adj_rows qmap rest adj
adj_rows qmap (some (s, p, d) ∷ rest) adj = adj_rows qmap rest (append_ends (qmap s) (qmap d) p adj)

-- load_typed_adj
unfoldable pub load_typed_adj :
    (Text → Option (List EdgeRow)) → Lookup → List Text → Adjacency → Adjacency
load_typed_adj read qmap [] adj = adj
load_typed_adj read qmap (path ∷ rest) adj =
    load_typed_adj read qmap rest (adj_rows qmap (rows_in (read path)) adj)

-- adj.get(s, ())
abbrev pub out_edges : Adjacency → ℕ → List (ℕ × ℕ)
out_edges [] s = []
out_edges ((x, es) ∷ rest) s = let later = out_edges rest s in if x == s then es else later
