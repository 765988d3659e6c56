-- ===== src/Baseline/Tests.antt =====
-- The theorems on bench/harness.py at a concrete corpus, and runs of the baseline.
use Prim.Native.String.{String}
use tridb.Base.{
  ℕ, ◌≡◌, refl, true, List, [], ◌∷◌, ◌++◌, map, length, take, contains, Distinct, arith,
}
use tridb.Metrics.{sm4_answer_parity}
use tridb.Driver.{Entity, Corpus, adjacency, distance_of, run_query}
use tridb.Baseline.{Query, baseline_query_inprocess, run_benchmark}
use tridb.Baseline.Parity.{baseline_query_inprocess-run_query}
use tridb.Baseline.Benchmark.{run_benchmark-sm4_answer_parity}

abbrev entity_at : ℕ → ℕ → String → Entity
entity_at i x chunk = record { id = i; timestamp = i; chunk = chunk; embedding = x ∷ [] }

abbrev entities : List Entity
entities = entity_at 1 9 "one" ∷ entity_at 2 4 "two" ∷ entity_at 3 6 "three" ∷ []

abbrev corpus : Corpus
corpus = record { entities = entities; edges = (1, 3) ∷ (3, 2) ∷ (2, 1) ∷ (1, 2) ∷ [] }

abbrev parallel : Corpus
parallel = record { entities = entities; edges = (1, 3) ∷ (2, 1) ∷ (2, 1) ∷ (3, 2) ∷ [] }

abbrev question : List ℕ
question = 4 ∷ []

abbrev years : List ℕ
years = 1 ∷ 2 ∷ []

abbrev ask : ℕ → ℕ → Query
ask i x = record {
  qid = i;
  embedding = x ∷ [];
  selected_time_range = years;
  tridb_ms = 1;
  baseline_ms = 9;
}

abbrev asked : List Query
asked = ask 7 4 ∷ ask 8 9 ∷ []

sorted_answer :
    (baseline_query_inprocess corpus 8 question years 3 0).result_chunks ≡ "one" ∷ "two" ∷ []
unfolding baseline_query_inprocess tridb.Base.Sort.sort tridb.Base.insert
sorted_answer = refl

-- On parallel edges the two systems differ.
parallel_baseline :
    (baseline_query_inprocess parallel 8 question years 2 0).result_chunks ≡ "one" ∷ "two" ∷ []
unfolding baseline_query_inprocess tridb.Base.Sort.sort tridb.Base.insert
parallel_baseline = refl

parallel_tridb : (run_query parallel 8 question years 2 0).result_chunks ≡ "one" ∷ "one" ∷ []
unfolding run_query tridb.Base.Sort.sort tridb.Base.insert
parallel_tridb = refl

single : (src : ℕ) → Distinct (adjacency corpus src)
single src = ground arith

apart : Distinct (map (distance_of corpus question) (map (λ e. e.id) entities))
apart = (refl, (refl, (refl, tt)))

baseline_query_inprocess-run_query_example :
    (baseline_query_inprocess corpus 8 question years 3 5).result_chunks
    ≡ (run_query corpus 8 question years 3 1).result_chunks
baseline_query_inprocess-run_query_example =
    baseline_query_inprocess-run_query corpus 8 3 5 1 question years (omega arith) (omega arith)
      apart single

run_benchmark-sm4_answer_parity_example :
    let report = run_benchmark corpus asked 3 in
    (sm4_answer_parity report.tridb_samples report.baseline_samples).passed ≡ true
run_benchmark-sm4_answer_parity_example =
    run_benchmark-sm4_answer_parity corpus 3 (omega arith) (omega arith) single asked (omega arith)
      (refl, (refl, tt)) ((refl, (refl, (refl, tt))), ((refl, (refl, (refl, tt))), tt))
