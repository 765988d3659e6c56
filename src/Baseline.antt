-- ===== src/Baseline.antt =====
-- bench/harness.py: the stitched baseline replayed in the process, and the benchmark that runs it
-- beside a driver. The queries of the corpus are an argument; the latency that the clock measures
-- is one too.
pub mod Order
pub mod Groups
pub mod Merge
pub mod Parity
pub mod Benchmark
pub mod Tests
use Prim.Native.String.{String}
use tridb.Base.{
  ℕ, ◌*◌, Bool, true, ◌&&◌, List, [], ◌∷◌, ◌++◌, map, leb, if◌then◌else◌, length, take, keep,
  contains, insert, min, max,
}
use tridb.Metrics.{QuerySample, MetricResult, derive_metrics}
use tridb.Driver.{Corpus, size, distance_of, ranked_src, in_range, chunk_of, run_query}

abbrev pub ann_fanout : ℕ
ann_fanout = 32

-- The ids of the over-fetched vector leg, nearest first.
abbrev pub vector_hits : Corpus → List ℕ → ℕ → List ℕ
vector_hits c q_emb k =
    let ranked = ranked_src c q_emb in take (min (k * ann_fanout) (length ranked)) ranked

-- The edges whose source was hit.
abbrev pub graph_pairs : List ℕ → List (ℕ × ℕ) → List (ℕ × ℕ)
graph_pairs seeds edges = keep (λ (p : ℕ × ℕ). contains seeds p.0) edges

-- `candidates.sort(key=lambda x: x[0])`: a stable sort by the distance alone.
unfoldable pub place_candidate : ℕ × ℕ → List (ℕ × ℕ) → List (ℕ × ℕ)
place_candidate x [] = x ∷ []
place_candidate x (y ∷ ys) =
    let rest = place_candidate x ys in if leb x.0 y.0 then x ∷ y ∷ ys else y ∷ rest

unfoldable pub sort_candidates : List (ℕ × ℕ) → List (ℕ × ℕ)
unfolding place_candidate
sort_candidates [] = []
sort_candidates (x ∷ xs) = place_candidate x (sort_candidates xs)

-- The pairs whose source has a distance and whose target the time filter kept, as (distance, id).
abbrev pub qualify : Corpus → List ℕ → List ℕ → List ℕ → List (ℕ × ℕ) → List (ℕ × ℕ)
qualify c q_emb time_range seeds [] = []
qualify c q_emb time_range seeds ((s, d) ∷ rest) =
    let more = qualify c q_emb time_range seeds rest in
    if contains seeds s && in_range c time_range d then (distance_of c q_emb s, d) ∷ more else more

-- The loop over the candidates.
unfoldable pub collect : Corpus → ℕ → List ℕ → List String → List (ℕ × ℕ) → List String
collect c k seen chunks [] = chunks
collect c k seen chunks ((dist, d) ∷ rest) =
    let chunks' = if contains seen d then chunks else chunks ++ chunk_of c d ∷ [] in
    let more = collect c k (insert seen d) chunks' rest in
    if leb k (length chunks') then chunks' else more

unfoldable pub baseline_query_inprocess : Corpus → ℕ → List ℕ → List ℕ → ℕ → ℕ → QuerySample
unfolding sort_candidates collect
baseline_query_inprocess c qid q_emb time_range k latency_ms =
    let hits = vector_hits c q_emb k in
    let pairs = graph_pairs hits c.edges in
    let candidates = sort_candidates (qualify c q_emb time_range hits pairs) in
    record {
      qid = qid;
      system = "baseline";
      k = k;
      latency_ms = latency_ms;
      peak_intermediate_rows = max (length hits) (max (length pairs) (length candidates));
      corpus_examined = size c;
      corpus_size = size c;
      result_chunks = take k (collect c k [] [] candidates);
      txn_atomic = true;
    }

pub record Query : Type 0 where
  pub qid : ℕ
  pub embedding : List ℕ
  pub selected_time_range : List ℕ
  pub tridb_ms : ℕ
  pub baseline_ms : ℕ

abbrev pub tridb_sample : Corpus → ℕ → Query → QuerySample
tridb_sample c k q = run_query c q.qid q.embedding q.selected_time_range k q.tridb_ms

abbrev pub baseline_sample : Corpus → ℕ → Query → QuerySample
baseline_sample c k q =
    baseline_query_inprocess c q.qid q.embedding q.selected_time_range k q.baseline_ms

-- run_benchmark with the stub driver and the baseline in the process: the two lists of samples and
-- the metrics derived from them.
pub record BenchmarkReport : Type 0 where
  pub k : ℕ
  pub corpus_size : ℕ
  pub num_queries : ℕ
  pub engine_mode : String
  pub tridb_samples : List QuerySample
  pub baseline_samples : List QuerySample
  pub metrics : List MetricResult

unfoldable pub run_benchmark : Corpus → List Query → ℕ → BenchmarkReport
run_benchmark c queries k =
    let tridb_samples = map (tridb_sample c k) queries in
    let baseline_samples = map (baseline_sample c k) queries in
    record {
      k = k;
      corpus_size = size c;
      num_queries = length queries;
      engine_mode = "stub";
      tridb_samples = tridb_samples;
      baseline_samples = baseline_samples;
      metrics = derive_metrics tridb_samples baseline_samples;
    }
