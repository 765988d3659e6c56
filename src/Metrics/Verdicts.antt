-- ===== src/Metrics/Verdicts.antt =====
-- When the verdicts SM-1, SM-2, SM-3 and SM-5 of bench/metrics.py pass, stated of the samples.
use tridb.Base.{
  inl, inr, ℕ, ◌*◌, ◌≤◌, ◌<◌, ◌≡◌, ◌≢◌, refl, ◌↔◌, Bool, true, false, ◌&&◌, none, some, List, [],
  ◌∷◌, map, arith, ltb, length, count, all, All, Bool-cases, count-le-length,
}
use native.Mathlib.Nat.{lt_of_mul-lt-mul_right, mul-le-mul_right}
use tridb.Base.Ratio.{Ratio, ratio, ratio_ltb}
use tridb.Metrics.{
  QuerySample, peak_total, sm1_intermediate_reduction, base_by_qid, paired, is_win,
  sm2_latency_win_fraction, largest, worst_of, sm3_samples, corpus_fraction, sm3_corpus_examined,
  is_atomic, sm5_txn_atomicity, derive_metrics, all_passed, sm4_answer_parity,
}

-- SM-1 passes exactly when TriDB held some intermediate rows and the baseline held, in total, at
-- least five times as many.
sm1-passed :
    (tridb baseline : List QuerySample)
    → ((sm1_intermediate_reduction tridb baseline).passed ≡ true)
      ↔ ((0 < peak_total tridb) × (5 * peak_total tridb ≤ peak_total baseline))
unfolding sm1_intermediate_reduction
sm1-passed tridb baseline = ground arith

-- TriDB was strictly faster than the baseline's last sample for this query.
abbrev pub beats : List QuerySample → QuerySample → Bool
beats baseline t = elim (base_by_qid baseline t.qid) [
  | some b ↦ ltb t.latency_ms b.latency_ms
  | none ↦ false
]

-- The baseline has a sample for this query.
abbrev pub has_partner : List QuerySample → QuerySample → Bool
has_partner baseline t = elim (base_by_qid baseline t.qid) [ some b ↦ true | none ↦ false ]

length-paired :
    (tridb baseline : List QuerySample)
    → length (paired tridb baseline) ≡ count (has_partner baseline) tridb
length-paired [] baseline = refl
length-paired (t ∷ rest) baseline = ground (arith, length-paired rest baseline)

wins-paired :
    (tridb baseline : List QuerySample)
    → count is_win (paired tridb baseline) ≡ count (beats baseline) tridb
wins-paired [] baseline = refl
wins-paired (t ∷ rest) baseline = ground (arith, wins-paired rest baseline)

-- SM-2 passes exactly when some TriDB sample has a baseline sample for its query, and TriDB was
-- strictly faster on at least four fifths of those that have.
sm2-passed :
    (tridb baseline : List QuerySample)
    → ((sm2_latency_win_fraction tridb baseline).passed ≡ true) ↔ (
        (0 < count (has_partner baseline) tridb)
        × (4 * count (has_partner baseline) tridb ≤ 5 * count (beats baseline) tridb))
unfolding sm2_latency_win_fraction
sm2-passed tridb baseline = rw (length-paired, wins-paired) (ground arith)

-- Less than a quarter.
abbrev pub IsSmall : Ratio → Type 0
IsSmall r = 4 * r.num < r.den

-- A fraction at most a small one is small.
below_smaller : (a b c d : ℕ) → 0 < b → a * d ≤ c * b → 4 * c < d → 4 * a < b
below_smaller a b c d p h k = lt_of_mul-lt-mul_right d (omega (arith, h, mul-le-mul_right b k, p))

IsSmall-largest :
    (best : Ratio) (rest : List Ratio)
    → 0 < best.den
    → All (λ r. 0 < r.den) rest
    → IsSmall (largest best rest) ↔ (IsSmall best × All IsSmall rest)
IsSmall-largest best [] p ps = (λ h. (h, tt), λ h. h.0)
IsSmall-largest best (x ∷ rest) p ps = elim (Bool-cases (ratio_ltb best x)) [
  | inl less ↦
      rw (less, largest)
        (let (there, back) = IsSmall-largest x rest ps.0 ps.1 in
          (
            λ h.
                (below_smaller best.num best.den x.num x.den p (ground arith) (there h).0, there h),
            λ h. back h.1,
          ))
  | inr more ↦
      rw (more, largest)
        (let (there, back) = IsSmall-largest best rest p ps.1 in
          (
            λ h. (
              (there h).0,
              (
                below_smaller x.num x.den best.num best.den ps.0 (ground arith) (there h).0,
                (there h).1,
              ),
            ),
            λ h. back (h.0, h.1.1),
          ))
]

-- A sample read a quarter of its corpus or more unless this holds; an empty corpus counts as read
-- whole.
abbrev pub ReadsLittle : QuerySample → Type 0
ReadsLittle s = 4 * s.corpus_examined < s.corpus_size

den-corpus_fraction : (s : QuerySample) → 0 < (corpus_fraction s).den
unfolding corpus_fraction
den-corpus_fraction s = ground arith

dens-corpus_fraction : (l : List QuerySample) → All (λ r. 0 < r.den) (map corpus_fraction l)
dens-corpus_fraction [] = tt
dens-corpus_fraction (s ∷ l) = (den-corpus_fraction s, dens-corpus_fraction l)

IsSmall-corpus_fraction : (s : QuerySample) → IsSmall (corpus_fraction s) ↔ ReadsLittle s
unfolding corpus_fraction
IsSmall-corpus_fraction s = ground arith

IsSmall-fractions : (l : List QuerySample) → All IsSmall (map corpus_fraction l) ↔ All ReadsLittle l
IsSmall-fractions [] = (λ h. h, λ h. h)
IsSmall-fractions (s ∷ l) =
    let (f, g) = IsSmall-corpus_fraction s in
    let (fs, gs) = IsSmall-fractions l in (λ h. (f h.0, fs h.1), λ h. (g h.0, gs h.1))

IsSmall-worst :
    (l : List QuerySample)
    → IsSmall (worst_of (map corpus_fraction l)) ↔ ((l ≢ []) × All ReadsLittle l)
IsSmall-worst [] = (λ h. absurd (omega arith), λ h. absurd (h.0 refl))
IsSmall-worst (s ∷ l) =
    let (f, g) =
      IsSmall-largest (corpus_fraction s) (map corpus_fraction l) (den-corpus_fraction s)
        (dens-corpus_fraction l) in
    let (fs, gs) = IsSmall-fractions (s ∷ l) in (λ h. (λ e. cc, fs (f h)), λ h. g (gs h.1))

passes-IsSmall : (r : Ratio) → (ratio_ltb r (ratio 1 4) ≡ true) ↔ IsSmall r
passes-IsSmall r = ground arith

-- SM-3 passes exactly when there are samples and every sample it looks at - those at k = 5, or all
-- when none is at 5 - read less than a quarter of its corpus.
sm3-passed :
    (tridb : List QuerySample)
    → ((sm3_corpus_examined tridb).passed ≡ true)
      ↔ ((sm3_samples tridb ≢ []) × All ReadsLittle (sm3_samples tridb))
unfolding sm3_corpus_examined
sm3-passed tridb =
    let (f, g) = IsSmall-worst (sm3_samples tridb) in
    let (p, q) = passes-IsSmall (worst_of (map corpus_fraction (sm3_samples tridb))) in
    (λ h. f (p h), λ h. q (g h))

All-count :
    (l : List QuerySample) → (count is_atomic l ≡ length l) ↔ All (λ s. s.txn_atomic ≡ true) l
All-count [] = (λ _. tt, λ _. refl)
All-count (s ∷ l) =
    let (f, g) = All-count l in
    (
      λ h. (
        ground (arith, count-le-length is_atomic l),
        f (ground (arith, count-le-length is_atomic l)),
      ),
      λ h. ground (arith, g h.1, h.0),
    )

-- SM-5 passes exactly when there are samples and every one was atomic.
sm5-passed :
    (tridb : List QuerySample)
    → ((sm5_txn_atomicity tridb).passed ≡ true)
      ↔ ((tridb ≢ []) × All (λ s. s.txn_atomic ≡ true) tridb)
unfolding sm5_txn_atomicity
sm5-passed [] = (λ h. cc, λ h. absurd (h.0 refl))
sm5-passed (s ∷ l) =
    let (f, g) = All-count (s ∷ l) in
    (
      λ h. (λ e. cc, f (ground (arith, count-le-length is_atomic (s ∷ l)))),
      λ h. ground (arith, g h.1),
    )

five_pass :
    (a b c d e : Bool)
    → ((a && (b && (c && (d && (e && true))))) ≡ true)
      ↔ ((a ≡ true) × (b ≡ true) × (c ≡ true) × (d ≡ true) × (e ≡ true))
five_pass a b c d e = ground arith

not-nil : (l : List QuerySample) → 0 < peak_total l → l ≢ []
not-nil [] h e = absurd (omega arith)
not-nil (s ∷ l) h e = cc

sm3_samples-not_nil : (l : List QuerySample) → l ≢ [] → sm3_samples l ≢ []
sm3_samples-not_nil l h = ground arith

-- The report as a whole passes exactly when TriDB held some intermediate rows and the baseline five
-- times as many, TriDB was strictly faster on at least four fifths of the samples that have a
-- baseline sample, of which there is one, each sample that SM-3 looks at read less than a quarter of
-- its corpus, SM-4 passes, and every sample was atomic.
pub derive_metrics-passed :
    (tridb baseline : List QuerySample)
    → (all_passed (derive_metrics tridb baseline) ≡ true) ↔ (
        (0 < peak_total tridb)
        × (5 * peak_total tridb ≤ peak_total baseline)
        × (0 < count (has_partner baseline) tridb)
        × (4 * count (has_partner baseline) tridb ≤ 5 * count (beats baseline) tridb)
        × All ReadsLittle (sm3_samples tridb)
        × ((sm4_answer_parity tridb baseline).passed ≡ true)
        × All (λ s. s.txn_atomic ≡ true) tridb)
unfolding derive_metrics all_passed
derive_metrics-passed tridb baseline =
    let (s1, r1) = sm1-passed tridb baseline in
    let (s2, r2) = sm2-passed tridb baseline in
    let (s3, r3) = sm3-passed tridb in
    let (s5, r5) = sm5-passed tridb in
    let (all, back) = five_pass _ _ _ _ _ in
    (
      λ h.
          let (a, b, c, d, e) = all h in
          ((s1 a).0, (s1 a).1, (s2 b).0, (s2 b).1, (s3 c).1, d, (s5 e).1),
      λ (a0, a1, b0, b1, c, d, e).
          let some_sample = not-nil tridb a0 in
          back (
            r1 (a0, a1),
            r2 (b0, b1),
            r3 (sm3_samples-not_nil tridb some_sample, c),
            d,
            r5 (some_sample, e),
          ),
    )
