-- ===== src/Dense/Tests.antt =====
-- The theorems on tools/wikidata_engine_load.py and bench/wikidata_h2h.py at a small slice.
use tridb.Base.{ℕ, ◌≡◌, refl, Option, none, some, List, [], ◌∷◌, ◌==◌, if◌then◌else◌}
use tridb.Base.Result.{ok, raised, file_not_found}
use tridb.Base.Text.{Text}
use tridb.Base.{◌≢◌, ◌↔◌, true}
use tridb.Dense.{Adjacency}
use tridb.Dense.Types.{TypeMap}
use tridb.Gate.Reachable.{Reaches}
use tridb.Dense.Reach.{typed_reach, candidates}
use tridb.Dense.Reach.Reached.{HasType, property_links, candidates-Reaches}
use tridb.Dense.{
  DenseMap, no_entities, find, build_dense_map, EdgeRow, iter_kept_edges, load_typed_adj, out_edges,
  shard_paths,
}
use tridb.Dense.Types.{ClaimsRow, claims_rows, load_p31_dense, load_types, types_at}
use tridb.Dense.Types.Agree.{OneRow, load_p31_dense-load_types}
use tridb.Base.{contains, arith, firsts}
use tridb.Dense.Ids.{row_ids, all_rows, IsDense, build_dense_map-IsDense}
use tridb.Dense.Parity.{edges_from, out_edges-load_typed_adj}

-- Shards `0` and `1` are there, `2` is not; entity 9 stands twice.
abbrev entities : Text → Option (List (Option ℕ))
entities [] = none
entities (c ∷ rest) =
    if c == 0
    then some (some 7 ∷ none ∷ some 9 ∷ [])
    else if c == 1
    then some (some 9 ∷ some 4 ∷ [])
    else none

abbrev paths : List Text
paths = (0 ∷ []) ∷ (1 ∷ []) ∷ []

abbrev emitted : DenseMap
emitted = record { qid_to_dense = (7, 0) ∷ (9, 1) ∷ (4, 2) ∷ []; dense_to_qid = 7 ∷ 9 ∷ 4 ∷ [] }

built : build_dense_map entities paths no_entities ≡ ok emitted
unfolding build_dense_map
built = refl

missing : build_dense_map entities ((2 ∷ []) ∷ []) no_entities ≡ raised file_not_found
unfolding build_dense_map
missing = refl

repeated_path : shard_paths [] ((0 ∷ []) ∷ (1 ∷ []) ∷ (0 ∷ []) ∷ []) ≡ paths
repeated_path = refl

build_dense_map-IsDense_example :
    (t : DenseMap) × (build_dense_map entities paths no_entities ≡ ok t)
    × (t.dense_to_qid ≡ firsts contains [] (row_ids (all_rows entities paths)))
    × IsDense t
build_dense_map-IsDense_example = build_dense_map-IsDense entities paths (refl, (refl, tt))

-- The last edge leaves the slice.
abbrev rows : Text → Option (List EdgeRow)
rows path = some (some (7, 31, 9) ∷ none ∷ some (9, 31, 7) ∷ some (7, 5, 4) ∷ some (7, 5, 8) ∷ [])

abbrev qmap : ℕ → Option ℕ
qmap q = find emitted.qid_to_dense q

kept : iter_kept_edges rows qmap ([] ∷ []) ≡ (0, 31, 1) ∷ (1, 31, 0) ∷ (0, 5, 2) ∷ []
unfolding iter_kept_edges
kept = refl

out_edges-load_typed_adj_example :
    out_edges (load_typed_adj rows qmap ([] ∷ []) []) 0
    ≡ edges_from 0 (iter_kept_edges rows qmap ([] ∷ []))
out_edges-load_typed_adj_example = out_edges-load_typed_adj rows qmap ([] ∷ []) 0

abbrev claims : Text → Option (List ClaimsRow)
claims path = some (some (7, 4 ∷ 8 ∷ 9 ∷ []) ∷ none ∷ some (9, 8 ∷ []) ∷ [])

one_row : OneRow qmap (claims_rows claims ([] ∷ []))
one_row = (λ e h. ground arith, (λ e h. refl, tt))

load_p31_dense-load_types_example :
    contains (types_at (load_p31_dense claims qmap ([] ∷ [])) 0) 2
    ≡ contains (types_at (load_types claims qmap ([] ∷ [])) 0) 2
load_p31_dense-load_types_example = load_p31_dense-load_types claims qmap ([] ∷ []) 0 2 one_row

-- Where an entity has two rows, the loader keeps the first and the benchmark the last.
abbrev two_rows : Text → Option (List ClaimsRow)
two_rows path = some (some (7, 4 ∷ []) ∷ some (7, 9 ∷ []) ∷ [])

first_kept : types_at (load_p31_dense two_rows qmap ([] ∷ [])) 0 ≡ 2 ∷ []
unfolding load_p31_dense tridb.Base.Sort.sort tridb.Base.insert
first_kept = refl

last_kept : types_at (load_types two_rows qmap ([] ∷ [])) 0 ≡ 1 ∷ []
unfolding load_types tridb.Base.insert
last_kept = refl

-- 0 -7-> 1, 0 -8-> 3, 1 -7-> 2, 1 -7-> 0, 2 -7-> 3.
abbrev typed : Adjacency
typed = (0, (7, 1) ∷ (8, 3) ∷ []) ∷ (1, (7, 2) ∷ (7, 0) ∷ []) ∷ (2, (7, 3) ∷ []) ∷ []

abbrev kinds : TypeMap
kinds = (1, 5 ∷ []) ∷ (2, 5 ∷ 6 ∷ []) ∷ []

typed_reach_run : typed_reach typed 0 (some 7) 2 ≡ some (1 ∷ 2 ∷ [])
unfolding typed_reach tridb.Base.insert
typed_reach_run = refl

candidates-Reaches_example :
    (r : List ℕ) × (candidates typed kinds 0 (some 7) (some 6) 2 ≡ some r)
    × ((x : ℕ)
        → (contains r x ≡ true) ↔ (
            (x ≢ 0)
            × Reaches (property_links typed (some 7)) (0 ∷ []) 2 x
            × HasType kinds (some 6) x))
candidates-Reaches_example = candidates-Reaches typed 0 (some 7) 2 kinds (some 6)
