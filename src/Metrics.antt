-- ===== src/Metrics.antt =====
-- bench/metrics.py: the per-query samples and the five verdicts SM-1 to SM-5.
-- A latency is a count of clock ticks, a fraction of counts is exact. The verdict's `detail` text
-- is not modelled; `value` is rounded as in the code.
mod Answers
pub mod Target
pub mod Verdicts
pub mod Tests
use Target
pub use Answers.{unique, mem_str}
use Prim.Native.String.{String}
use tridb.Base.{
  ℕ, ◌+◌, ◌-◌, ◌*◌, Bool, true, false, ◌&&◌, Option, none, some, List, [], ◌∷◌, map, ltb, leb, ◌==◌,
  if◌then◌else◌, length, sum, count, keep, all,
}
use tridb.Base.Ratio.{
  Ratio, ratio, ratio_zero, ratio_one, ratio_leb, ratio_ltb, ratio_add, ratio_round,
}

pub record QuerySample : Type 0 where
  pub qid : ℕ
  pub system : String
  pub k : ℕ
  pub latency_ms : ℕ
  pub peak_intermediate_rows : ℕ
  pub corpus_examined : ℕ
  pub corpus_size : ℕ
  pub result_chunks : List String
  pub txn_atomic : Bool

unfoldable pub corpus_fraction : QuerySample → Ratio
corpus_fraction s = if s.corpus_size == 0 then ratio_one else ratio s.corpus_examined s.corpus_size

pub record MetricResult : Type 0 where
  pub sm : String
  pub name : String
  pub value : Ratio
  pub target : Ratio
  pub unit : String
  pub passed : Bool

-- _safe_ratio
abbrev pub safe_ratio : ℕ → ℕ → Ratio
safe_ratio numerator denominator =
    if denominator == 0 then ratio_zero else ratio numerator denominator

abbrev pub peak_total : List QuerySample → ℕ
peak_total samples = sum (map (λ s. s.peak_intermediate_rows) samples)

unfoldable pub sm1_intermediate_reduction : List QuerySample → List QuerySample → MetricResult
sm1_intermediate_reduction tridb baseline =
    let reduction = safe_ratio (peak_total baseline) (peak_total tridb) in
    record {
      sm = "SM-1";
      name = "Intermediate-result reduction";
      value = ratio_round 3 reduction;
      target = Target.min_reduction;
      unit = "x";
      passed = ratio_leb Target.min_reduction reduction;
    }

-- `{s.qid: s for s in baseline}` read at `qid`: of two samples for one query the later stays.
abbrev pub base_by_qid : List QuerySample → ℕ → Option QuerySample
base_by_qid [] qid = none
base_by_qid (s ∷ rest) qid = elim (base_by_qid rest qid) [
  | some later ↦ some later
  | none ↦ if s.qid == qid then some s else none
]

-- `[(t, base_by_qid[t.qid]) for t in tridb if t.qid in base_by_qid]`
abbrev pub paired : List QuerySample → List QuerySample → List (QuerySample × QuerySample)
paired [] baseline = []
paired (t ∷ rest) baseline = elim (base_by_qid baseline t.qid) [
  | some b ↦ (t, b) ∷ paired rest baseline
  | none ↦ paired rest baseline
]

abbrev pub is_win : QuerySample × QuerySample → Bool
is_win (t, b) = ltb t.latency_ms b.latency_ms

unfoldable pub sm2_latency_win_fraction : List QuerySample → List QuerySample → MetricResult
sm2_latency_win_fraction tridb baseline =
    let pairs = paired tridb baseline in
    let fraction = safe_ratio (count is_win pairs) (length pairs) in
    record {
      sm = "SM-2";
      name = "Latency-win fraction";
      value = ratio_round 3 fraction;
      target = Target.min_win_fraction;
      unit = "fraction";
      passed = ratio_leb Target.min_win_fraction fraction;
    }

-- `max(fractions)` from a first value on.
abbrev pub largest : Ratio → List Ratio → Ratio
largest best [] = best
largest best (x ∷ rest) = largest (if ratio_ltb best x then x else best) rest

abbrev pub worst_of : List Ratio → Ratio
worst_of [] = ratio_one
worst_of (x ∷ rest) = largest x rest

abbrev pub is_k5 : QuerySample → Bool
is_k5 s = s.k == 5

-- The samples that SM-3 looks at: those at k = 5, or all where there is none.
abbrev pub sm3_samples : List QuerySample → List QuerySample
sm3_samples tridb = elim (keep is_k5 tridb) [ [] ↦ tridb | s ∷ rest ↦ s ∷ rest ]

unfoldable pub sm3_corpus_examined : List QuerySample → MetricResult
unfolding corpus_fraction
sm3_corpus_examined tridb =
    let worst = worst_of (map corpus_fraction (sm3_samples tridb)) in
    record {
      sm = "SM-3";
      name = "Corpus examined (k=5, worst case)";
      value = ratio_round 4 worst;
      target = Target.max_corpus_fraction;
      unit = "fraction";
      passed = ratio_ltb worst Target.max_corpus_fraction;
    }

-- _jaccard: the sets are the lists without their repetitions.
unfoldable pub jaccard : List String → List String → Ratio
jaccard a b =
    let sa = unique a in
    let sb = unique b in
    let both = count (mem_str sb) sa in
    let union = length sa + length sb - both in if union == 0 then ratio_one else ratio both union

abbrev pub ratio_sum : List Ratio → Ratio
ratio_sum [] = ratio_zero
ratio_sum (x ∷ rest) = ratio_add x (ratio_sum rest)

-- `sum(xs) / len(xs) if xs else 0.0`
abbrev pub mean : List Ratio → Ratio
mean [] = ratio_zero
mean (x ∷ rest) =
    let total = ratio_sum (x ∷ rest) in ratio total.num (total.den * length (x ∷ rest))

abbrev pub pair_parity : QuerySample × QuerySample → Ratio
pair_parity (t, b) = jaccard t.result_chunks b.result_chunks

unfoldable pub sm4_answer_parity : List QuerySample → List QuerySample → MetricResult
sm4_answer_parity tridb baseline =
    let mean_parity = mean (map pair_parity (paired tridb baseline)) in
    record {
      sm = "SM-4";
      name = "Answer-set parity";
      value = ratio_round 4 mean_parity;
      target = Target.min_parity;
      unit = "fraction";
      passed = ratio_leb Target.min_parity mean_parity;
    }

abbrev pub is_atomic : QuerySample → Bool
is_atomic s = s.txn_atomic

unfoldable pub sm5_txn_atomicity : List QuerySample → MetricResult
sm5_txn_atomicity tridb =
    let fraction = safe_ratio (count is_atomic tridb) (length tridb) in
    record {
      sm = "SM-5";
      name = "Transaction atomicity";
      value = ratio_round 4 fraction;
      target = Target.required_atomicity;
      unit = "fraction";
      passed = ratio_leb Target.required_atomicity fraction;
    }

unfoldable pub derive_metrics : List QuerySample → List QuerySample → List MetricResult
derive_metrics tridb baseline =
    sm1_intermediate_reduction tridb baseline
    ∷ sm2_latency_win_fraction tridb baseline
    ∷ sm3_corpus_examined tridb
    ∷ sm4_answer_parity tridb baseline
    ∷ sm5_txn_atomicity tridb
    ∷ []

unfoldable pub all_passed : List MetricResult → Bool
all_passed metrics = all (λ m. m.passed) metrics
