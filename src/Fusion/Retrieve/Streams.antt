-- ===== src/Fusion/Retrieve/Streams.antt =====
-- The streams that `retrieve` merges: scores fall, and no id stands twice.
use tridb.Base.{
  sym, ap, ◌∙◌, ℕ, ◌≤◌, ◌≡◌, refl, inl, inr, true, false, List, [], ◌∷◌, ◌==◌, leb, contains, arith,
  All, Distinct, Bool-cases,
}
use tridb.Base.Sort.{sort, contains-sort, sort-Distinct, Falling, Falling-sort}
use tridb.Fusion.Scores.{Scores, score}
use tridb.Fusion.Push.{keys}
use tridb.Fusion.Merge.Bounds.{has, Stream}
use tridb.Fusion.Retrieve.{
  each, lowest, highest, minmax_norm, minmax_norm_negated, paired, by_score,
}

has-paired : (m : Scores) (l : List ℕ) (i : ℕ) → has (paired m l) i ≡ contains l i
has-paired m [] i = refl
has-paired m (x ∷ l) i = ground (arith, has-paired m l i)

score-paired-le :
    (m : Scores) (b : ℕ) (l : List ℕ) (j : ℕ)
    → All (λ y. score m y ≤ b) l
    → score (paired m l) j ≤ b
score-paired-le m b [] j h = omega arith
score-paired-le m b (x ∷ l) j h = ground (arith, score-paired-le m b l j h.1, h.0)

score-paired :
    (m : Scores) (l : List ℕ) (j : ℕ) → contains l j ≡ true → score (paired m l) j ≡ score m j
score-paired m [] j h = absurd (cc)
score-paired m (x ∷ l) j h = elim (Bool-cases (x == j)) [
  | inl same ↦ let one : x ≡ j = ground arith in rw same (ap (score m) one)
  | inr other ↦ rw other (score-paired m l j (ground arith))
]

paired-Stream : (m : Scores) (l : List ℕ) → Falling (score m) l → Distinct l → Stream (paired m l)
paired-Stream m [] f d = tt
paired-Stream m (x ∷ l) f d =
    (has-paired m l x ∙ d.0, λ j. score-paired-le m (score m x) l j f.0, paired-Stream m l f.1 d.1)

pub by_score-Stream : (m : Scores) → Distinct (keys m) → Stream (by_score m)
unfolding by_score
by_score-Stream m d =
    let le = λ (i j : ℕ). leb (score m j) (score m i) in
    paired-Stream m (sort le (keys m))
      (Falling-sort le (score m) (λ x y h. ground arith) (λ x y h. ground arith) (keys m))
      (sort-Distinct le (keys m) d)

absent : (m : Scores) (i : ℕ) → contains (keys m) i ≡ false → score m i ≡ 0
absent [] i h = refl
absent ((j, v) ∷ m) i h = ground (arith, absent m i)

pub has-by_score : (m : Scores) (i : ℕ) → has (by_score m) i ≡ contains (keys m) i
unfolding by_score
has-by_score m i =
    let le = λ (i j : ℕ). leb (score m j) (score m i) in
    has-paired m (sort le (keys m)) i ∙ contains-sort le (keys m) i

-- Sorting changes no score.
pub score-by_score : (m : Scores) (i : ℕ) → score (by_score m) i ≡ score m i
unfolding by_score
score-by_score m i =
    let le = λ (i j : ℕ). leb (score m j) (score m i) in
    let l = sort le (keys m) in
    let inside = contains-sort le (keys m) i in
    elim (Bool-cases (contains l i)) [
      | inl there ↦ score-paired m l i there
      | inr gone ↦ gone_score m l i gone ∙ sym (absent m i (sym inside ∙ gone))
    ]
  where
    gone_score : (m : Scores) (l : List ℕ) (i : ℕ) → contains l i ≡ false → score (paired m l) i ≡ 0
    gone_score m [] i h = refl
    gone_score m (x ∷ l) i h = ground (arith, gone_score m l i)

keys-each : (f : ℕ → ℕ) (m : Scores) → keys (each f m) ≡ keys m
keys-each f [] = refl
keys-each f ((i, v) ∷ m) = ap (λ l. i ∷ l) (keys-each f m)

pub keys-minmax_norm : (one : ℕ) (m : Scores) → keys (minmax_norm one m) ≡ keys m
unfolding minmax_norm
keys-minmax_norm one [] = refl
keys-minmax_norm one ((i, v) ∷ rest) = elim (Bool-cases (leb (highest v rest) (lowest v rest))) [
  | inl flat ↦ rw flat (keys-each (λ x. one) ((i, v) ∷ rest))
  | inr wide ↦ rw wide (keys-each _ ((i, v) ∷ rest))
]

pub keys-minmax_norm_negated : (one : ℕ) (m : Scores) → keys (minmax_norm_negated one m) ≡ keys m
unfolding minmax_norm_negated
keys-minmax_norm_negated one [] = refl
keys-minmax_norm_negated one ((i, v) ∷ rest) =
    elim (Bool-cases (leb (highest v rest) (lowest v rest))) [
      | inl flat ↦ rw flat (keys-each (λ x. one) ((i, v) ∷ rest))
      | inr wide ↦ rw wide (keys-each _ ((i, v) ∷ rest))
    ]
