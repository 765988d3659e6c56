-- ===== src/Driver/Tests.antt =====
-- A run of the walk of bench/driver.py.
use Prim.Native.String.{String}
use tridb.Base.{ℕ, ◌+◌, ◌≤◌, ◌<◌, ◌≡◌, refl, List, [], ◌∷◌, length, take, arith}
use tridb.Driver.{Entity, Corpus, run_query}

abbrev entity_at : ℕ → ℕ → String → Entity
entity_at i x chunk = record { id = i; timestamp = i; chunk = chunk; embedding = x ∷ [] }

-- Source 2 is the nearest to the question, and names entity 1 twice.
abbrev corpus : Corpus
corpus = record {
  entities = entity_at 1 9 "one" ∷ entity_at 2 4 "two" ∷ entity_at 3 6 "three" ∷ [];
  edges = (1, 3) ∷ (2, 1) ∷ (2, 1) ∷ (3, 2) ∷ [];
}

abbrev question : List ℕ
question = 4 ∷ []

abbrev years : List ℕ
years = 1 ∷ 2 ∷ []

-- Parallel edges of one source give their target twice.
repeated_chunk : (run_query corpus 8 question years 2 0).result_chunks ≡ "one" ∷ "one" ∷ []
unfolding run_query tridb.Base.Sort.sort
repeated_chunk = refl
