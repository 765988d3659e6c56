-- ===== src/Consistency/Tests.antt =====
-- The theorems on bench/wikidata_consistency.py and bench/wiki_consistency.py at concrete edits.
use tridb.Base.{◌*◌, ◌≡◌, List, [], ◌∷◌, length}
use tridb.Consistency.{Edit, baseline_rev, simulate_headtohead}
use tridb.Consistency.Laws.{changes, simulate_headtohead_tally}

abbrev window : List Edit
window =
    record { entity = 7; rev = 1 }
    ∷ record { entity = 9; rev = 4 }
    ∷ record { entity = 7; rev = 1 }
    ∷ []

simulate_headtohead_tally_example :
    let (tridb, multistore) = simulate_headtohead window in
    (tridb.tally.torn_count ≡ 0)
    × (tridb.tally.observations ≡ length window)
    × (tridb.tally.examples ≡ [])
    × (multistore.tally.observations ≡ 3 * length window)
    × (multistore.tally.torn_count ≡ 2 * changes (λ _. baseline_rev) window)
simulate_headtohead_tally_example = simulate_headtohead_tally window
