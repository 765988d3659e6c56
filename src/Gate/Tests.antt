-- ===== src/Gate/Tests.antt =====
-- The theorems on bench/wiki_ppr_gate.py and bench/wiki_h2h.py at a small slice.
use tridb.Base.{
  ℕ, ◌≡◌, ◌↔◌, refl, Bool, true, false, not, ◌&&◌, ◌||◌, Option, none, some, List, [], ◌∷◌, ◌==◌,
  contains,
}
use tridb.Gate.{
  Adjacency, Edge, Sample, has_edge, parse_edge_lines, build_load_edges, exclude_holdouts, expand,
  reachable_within_hops,
}
use tridb.Gate.Reachable.{Reaches, contains-expand}
use tridb.Gate.Unreachable.{loaded, held_out-reachable_within_hops}

-- A repeated edge, a self loop, an edge that leaves the slice and a line without a tab.
abbrev lines : List (Option Edge)
lines =
    some (0, 1) ∷ some (0, 1) ∷ some (2, 2) ∷ none ∷ some (1, 9) ∷ some (1, 2) ∷ some (2, 0) ∷ []

abbrev slice : Adjacency
slice = (0, 1 ∷ []) ∷ (1, 2 ∷ []) ∷ (2, 0 ∷ []) ∷ []

parsed : parse_edge_lines 4 lines ≡ slice
unfolding parse_edge_lines tridb.Base.Sort.sort tridb.Base.insert
parsed = refl

abbrev samples : List Sample
samples = (record { qid = 0; gold = 1 ∷ [] }) ∷ []

contains-expand_example :
    (contains (expand (loaded slice samples) (0 ∷ []) 2) 1 ≡ true)
    ↔ Reaches (loaded slice samples) (0 ∷ []) 2 1
contains-expand_example = contains-expand (loaded slice samples) (0 ∷ []) 2 1

held_out-reachable_within_hops_example :
    contains (reachable_within_hops (loaded slice samples) 0 1) 1 ≡ false
held_out-reachable_within_hops_example = held_out-reachable_within_hops slice samples 0 1 refl

-- It stays reachable over two hops.
still_reachable : contains (reachable_within_hops (loaded slice samples) 0 2) 1 ≡ true
unfolding tridb.Gate.expand_from tridb.Base.Sort.sort tridb.Base.insert
still_reachable = refl
