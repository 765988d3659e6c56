-- ===== src/Baseline/Benchmark.antt =====
-- run_benchmark of bench/harness.py: the samples of both systems, paired and compared.
use Prim.Native.String.{String}
use text.Mathlib.Text.{◌==◌ as str_eq}
use text.Mathlib.TextEquality.{eq_iff}
use tridb.Base.{
  sym, ap, ◌∙◌, ℕ, suc, ◌+◌, ◌*◌, ◌≤◌, ◌<◌, ◌≡◌, refl, Bool, true, false, ◌||◌, none, some, List,
  [], ◌∷◌, map, ◌==◌, length, count, All, contains, Distinct, arith, or_true, Bool-cases, inl, inr,
  ◌-◌,
}
use mathlib.Core.Path.{subst}
use native.Mathlib.Nat.{mul-pos, mul_comm, mul_assoc, suc-mul}
use tridb.Base.Ratio.{Ratio}
use tridb.Metrics.{
  QuerySample, jaccard, unique, mem_str, ratio_sum, mean, base_by_qid, paired, pair_parity,
  sm4_answer_parity,
}
use tridb.Driver.{Corpus, size, adjacency, distance_of}
use tridb.Baseline.{
  Query, tridb_sample, baseline_sample, BenchmarkReport, run_benchmark, ann_fanout,
}
use tridb.Baseline.Parity.{baseline_query_inprocess-run_query}

All-map {ℓ} :
    {A : Type ℓ} (P Q : A → Type 0) (xs : List A) → ((x : A) → P x → Q x) → All P xs → All Q xs
All-map P Q [] f h = tt
All-map P Q (x ∷ xs) f h = (f x h.0, All-map P Q xs f h.1)

-- Every member of a list is in it.
members : (xs : List String) → All (λ x. mem_str xs x ≡ true) xs
members [] = tt
members (x ∷ xs) = (
  ap (λ b. b || mem_str xs x) ((eq_iff x x).1 refl),
  All-map _ (λ y. mem_str (x ∷ xs) y ≡ true) xs (λ y h. rw h (or_true (str_eq x y))) (members xs),
)

count-All {ℓ} :
    {A : Type ℓ} (p : A → Bool) (xs : List A) → All (λ x. p x ≡ true) xs → count p xs ≡ length xs
count-All p [] h = refl
count-All p (x ∷ xs) h = let rest = count-All p xs h.1 in rw h.0 (omega (arith, rest))

abbrev IsWhole : Ratio → Type 0
IsWhole r = (r.num ≡ r.den) × (0 < r.den)

jaccard-IsWhole : (a : List String) → IsWhole (jaccard a a)
unfolding jaccard
jaccard-IsWhole a =
    let n = length (unique a) in
    let both = count-All (mem_str (unique a)) (unique a) (members (unique a)) in
    rw both (elim (Bool-cases (n + n - n == 0)) [
      | inl none' ↦ rw none' (refl, omega arith)
      | inr some' ↦ rw some' (omega arith, ground arith)
    ])

sums : (n a b x y : ℕ) → x ≡ a → y ≡ n * b → x * b + y * a ≡ suc n * (a * b)
sums n a b x y e f =
    ap (λ t. t * b + y * a) e
    ∙ ap (λ t. a * b + t * a) f
    ∙ omega (arith, mul_assoc n b a, ap (λ t. n * t) (mul_comm b a), suc-mul n (a * b))

ratio_sum-IsWhole :
    (rs : List Ratio)
    → All IsWhole rs
    → ((ratio_sum rs).num ≡ length rs * (ratio_sum rs).den) × (0 < (ratio_sum rs).den)
ratio_sum-IsWhole [] h = (refl, omega arith)
ratio_sum-IsWhole (r ∷ rs) h =
    let ih = ratio_sum-IsWhole rs h.1 in
    let (one_num, one_pos) = h.0 in
    (
      sums (length rs) r.den (ratio_sum rs).den r.num (ratio_sum rs).num one_num ih.0,
      mul-pos one_pos ih.1,
    )

mean-IsWhole : (rs : List Ratio) → All IsWhole rs → 0 < length rs → IsWhole (mean rs)
mean-IsWhole [] h n = absurd (omega arith)
mean-IsWhole (r ∷ rs) h n =
    let (equal, above) = ratio_sum-IsWhole (r ∷ rs) h in
    (equal ∙ mul_comm (length (r ∷ rs)) (ratio_sum (r ∷ rs)).den, mul-pos above n)

absent :
    (c : Corpus) (k qid : ℕ) (qs : List Query)
    → contains (map (λ q. q.qid) qs) qid ≡ false
    → base_by_qid (map (baseline_sample c k) qs) qid ≡ none
unfolding tridb.Baseline.baseline_query_inprocess
absent c k qid [] h = refl
absent c k qid (q ∷ qs) h =
    let later = absent c k qid qs (ground arith) in
    let other : (q.qid == qid) ≡ false = ground arith in rw later (rw other refl)

abbrev Found : Corpus → ℕ → List Query → Query → Type 0
Found c k qs q = base_by_qid (map (baseline_sample c k) qs) q.qid ≡ some (baseline_sample c k q)

every-Found :
    (c : Corpus) (k : ℕ) (qs : List Query) → Distinct (map (λ q. q.qid) qs) → All (Found c k qs) qs
unfolding tridb.Baseline.baseline_query_inprocess
every-Found c k [] h = tt
every-Found c k (q ∷ qs) h =
    let later = absent c k q.qid qs h.0 in
    let self : (q.qid == q.qid) ≡ true = ground arith in
    (
      rw later (rw self refl),
      All-map (Found c k qs) (Found c k (q ∷ qs)) qs (λ x e. rw e refl) (every-Found c k qs h.1),
    )

paired-next :
    (t b : QuerySample) (rest baseline : List QuerySample)
    → base_by_qid baseline t.qid ≡ some b
    → paired (t ∷ rest) baseline ≡ (t, b) ∷ paired rest baseline
paired-next t b rest baseline e = rw (paired, e) refl

-- No two sources are equally far from the question.
abbrev pub IsApart : Corpus → Query → Type 0
IsApart c q = Distinct (map (distance_of c q.embedding) (map (λ e. e.id) c.entities))

module _ (c : Corpus) (k : ℕ) (some_wanted : 0 < k) (small : size c ≤ k * ann_fanout)
    (single : (src : ℕ) → Distinct (adjacency c src)) where
  abbrev pairs : List Query → List Query → List (QuerySample × QuerySample)
  pairs every qs = paired (map (tridb_sample c k) qs) (map (baseline_sample c k) every)

  pair-IsWhole :
      (q : Query) → IsApart c q → IsWhole (pair_parity (tridb_sample c k q, baseline_sample c k q))
  pair-IsWhole q apart =
      let same =
        baseline_query_inprocess-run_query c q.qid k q.baseline_ms q.tridb_ms q.embedding
          q.selected_time_range some_wanted small apart single in
      subst (λ l. IsWhole (jaccard (tridb_sample c k q).result_chunks l)) (sym same)
        (jaccard-IsWhole (tridb_sample c k q).result_chunks)

  pairs-IsWhole :
      (every qs : List Query)
      → All (Found c k every) qs
      → All (IsApart c) qs
      → All IsWhole (map pair_parity (pairs every qs))
        × (length (map pair_parity (pairs every qs)) ≡ length qs)
  unfolding tridb.Driver.run_query
  pairs-IsWhole every [] f a = (tt, refl)
  pairs-IsWhole every (q ∷ qs) f a =
      let (whole, n) = pairs-IsWhole every qs f.1 a.1 in
      let next =
        paired-next (tridb_sample c k q) (baseline_sample c k q) (map (tridb_sample c k) qs)
          (map (baseline_sample c k) every) f.0 in
      subst (λ l. All IsWhole (map pair_parity l) × (length (map pair_parity l) ≡ suc (length qs)))
        (sym next) ((pair-IsWhole q a.0, whole), ap suc n)

  -- A benchmark of at least one query passes the answer parity SM-4, when the queries have distinct
  -- ids, `k` is at least 1 and the over-fetch covers the corpus, no source names a target twice, and
  -- no two sources are equally far from any question.
  pub run_benchmark-sm4_answer_parity :
      (queries : List Query)
      → 0 < length queries
      → Distinct (map (λ q. q.qid) queries)
      → All (IsApart c) queries
      → let report = run_benchmark c queries k in
        (sm4_answer_parity report.tridb_samples report.baseline_samples).passed ≡ true
  unfolding run_benchmark sm4_answer_parity
  run_benchmark-sm4_answer_parity queries n ids apart =
      let (whole, m) = pairs-IsWhole queries queries (every-Found c k queries ids) apart in
      let (equal, above) =
        mean-IsWhole (map pair_parity (pairs queries queries)) whole (omega (arith, m, n)) in
      ground (arith, equal, above)
