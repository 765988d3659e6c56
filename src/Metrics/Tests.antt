-- ===== src/Metrics/Tests.antt =====
-- The theorems on bench/metrics.py at concrete samples.
use tridb.Base.{◌*◌, ◌≤◌, ◌<◌, ◌≡◌, ◌↔◌, true, List, [], ◌∷◌, count, All}
use tridb.Metrics.{
  QuerySample, peak_total, sm3_samples, sm4_answer_parity, derive_metrics, all_passed,
}
use tridb.Metrics.Verdicts.{has_partner, beats, ReadsLittle, derive_metrics-passed}

abbrev fused : QuerySample
fused = record {
  qid = 1;
  system = "tridb";
  k = 5;
  latency_ms = 3;
  peak_intermediate_rows = 7;
  corpus_examined = 20;
  corpus_size = 100;
  result_chunks = "a" ∷ "b" ∷ [];
  txn_atomic = true;
}

abbrev stitched : QuerySample
stitched = record fused {
  system = "baseline";
  latency_ms = 9;
  peak_intermediate_rows = 40;
  corpus_examined = 100;
}

abbrev tridb_samples : List QuerySample
tridb_samples = fused ∷ []

abbrev baseline_samples : List QuerySample
baseline_samples = stitched ∷ []

derive_metrics-passed_example :
    (all_passed (derive_metrics tridb_samples baseline_samples) ≡ true) ↔ (
      (0 < peak_total tridb_samples)
      × (5 * peak_total tridb_samples ≤ peak_total baseline_samples)
      × (0 < count (has_partner baseline_samples) tridb_samples)
      × (4 * count (has_partner baseline_samples) tridb_samples
          ≤ 5 * count (beats baseline_samples) tridb_samples)
      × All ReadsLittle (sm3_samples tridb_samples)
      × ((sm4_answer_parity tridb_samples baseline_samples).passed ≡ true)
      × All (λ s. s.txn_atomic ≡ true) tridb_samples)
derive_metrics-passed_example = derive_metrics-passed tridb_samples baseline_samples
