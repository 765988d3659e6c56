-- ===== src/Baseline/Order.antt =====
-- Sources in order of strictly rising distance, and the candidates of bench/harness.py grouped by
-- them.
use tridb.Base.{
  ℕ, ◌≤◌, ◌<◌, ◌≡◌, ◌≢◌, refl, Bool, true, false, List, [], ◌∷◌, ◌++◌, map, leb, ◌==◌, keep,
  contains, All, Distinct, arith, Bool-cases, inl, inr, All-append,
}
use tridb.Base.Sort.{sort, place}
use tridb.Driver.{Corpus, distance_of, in_range, targets}
use tridb.Baseline.{place_candidate}

module _ (f : ℕ → ℕ) where
  -- Each distance is below all that follow.
  abbrev pub Rising : List ℕ → Type 0
  Rising [] = Unit
  Rising (x ∷ xs) = All (λ y. f x < f y) xs × Rising xs

  abbrev by_distance : ℕ → ℕ → Bool
  by_distance i j = leb (f i) (f j)

  All-place :
      (P : ℕ → Type 0) (x : ℕ) (ys : List ℕ) → P x → All P ys → All P (place by_distance x ys)
  unfolding place
  All-place P x [] p ps = (p, tt)
  All-place P x (y ∷ ys) p ps = elim (Bool-cases (leb (f x) (f y))) [
    | inl before ↦ rw before (p, ps)
    | inr after ↦ rw after (ps.0, All-place P x ys p ps.1)
  ]

  All-sort : (P : ℕ → Type 0) (xs : List ℕ) → All P xs → All P (sort by_distance xs)
  unfolding sort
  All-sort P [] ps = tt
  All-sort P (x ∷ xs) ps = All-place P x (sort by_distance xs) ps.0 (All-sort P xs ps.1)

  All-below :
      (a b : ℕ) (ys : List ℕ) → f a < f b → All (λ y. f b < f y) ys → All (λ y. f a < f y) ys
  All-below a b [] h hs = tt
  All-below a b (y ∷ ys) h hs = (omega (arith, h, hs.0), All-below a b ys h hs.1)

  Rising-place :
      (x : ℕ) (ys : List ℕ) → All (λ y. f y ≢ f x) ys → Rising ys → Rising (place by_distance x ys)
  unfolding place
  Rising-place x [] apart r = (tt, tt)
  Rising-place x (y ∷ ys) apart r = elim (Bool-cases (leb (f x) (f y))) [
    | inl before ↦
        let less : f x < f y = ground (arith, apart.0) in
        rw before ((less, All-below x y ys less r.0), r)
    | inr after ↦
        rw after (All-place (λ z. f y < f z) x ys (ground arith) r.0, Rising-place x ys apart.1 r.1)
  ]

  apart_of : (x : ℕ) (xs : List ℕ) → contains (map f xs) (f x) ≡ false → All (λ y. f y ≢ f x) xs
  apart_of x [] h = tt
  apart_of x (y ∷ ys) h = (λ e. ground arith, apart_of x ys (ground arith))

  pub Rising-sort : (xs : List ℕ) → Distinct (map f xs) → Rising (sort by_distance xs)
  unfolding sort
  Rising-sort [] d = tt
  Rising-sort (x ∷ xs) d =
      Rising-place x (sort by_distance xs) (All-sort (λ y. f y ≢ f x) xs (apart_of x xs d.0))
        (Rising-sort xs d.1)

pub at-All :
    (P : ℕ → Type 0) (xs : List ℕ) (a : ℕ)
    → ((x : ℕ) → x ≡ a → P x → P a)
    → All P xs
    → contains xs a ≡ true
    → P a
at-All P [] a move h c = cc
at-All P (x ∷ xs) a move h c = elim (Bool-cases (x == a)) [
  | inl here ↦ move x (ground arith) h.0
  | inr there ↦ at-All P xs a move h.1 (ground arith)
]

-- A candidate goes before those that are not nearer, and after those that are.
pub place-first :
    (x : ℕ × ℕ) (ys : List (ℕ × ℕ))
    → All (λ (y : ℕ × ℕ). x.0 ≤ y.0) ys
    → place_candidate x ys ≡ x ∷ ys
unfolding place_candidate
place-first x [] h = refl
place-first x (y ∷ ys) h = ground (arith, h.0)

pub place-past :
    (x : ℕ × ℕ) (xs ys : List (ℕ × ℕ))
    → All (λ (y : ℕ × ℕ). y.0 < x.0) xs
    → place_candidate x (xs ++ ys) ≡ xs ++ place_candidate x ys
unfolding place_candidate
place-past x [] ys h = refl
place-past x (y ∷ xs) ys h = ground (arith, place-past x xs ys h.1, h.0)

module _ (c : Corpus) (q_emb time_range : List ℕ) where
  abbrev pub dist : ℕ → ℕ
  dist i = distance_of c q_emb i

  -- One source's candidates, and those of several, source by source.
  abbrev pub group : ℕ → List ℕ → List (ℕ × ℕ)
  group src ds = map (λ d. (dist src, d)) (keep (in_range c time_range) ds)

  abbrev pub groups : List ℕ → List (ℕ × ℕ) → List (ℕ × ℕ)
  groups [] edges = []
  groups (src ∷ rest) edges = group src (targets edges src) ++ groups rest edges

  pub All-group :
      (P : ℕ × ℕ → Type 0) (src : ℕ) (ds : List ℕ)
      → ((d : ℕ) → P (dist src, d))
      → All P (group src ds)
  All-group P src [] h = tt
  All-group P src (d ∷ ds) h = elim (Bool-cases (in_range c time_range d)) [
    | inl inside ↦ rw inside (h d, All-group P src ds h)
    | inr out ↦ rw out (All-group P src ds h)
  ]

  pub All-groups :
      (a : ℕ) (srcs : List ℕ) (edges : List (ℕ × ℕ))
      → All (λ y. dist a < dist y) srcs
      → All (λ (y : ℕ × ℕ). dist a ≤ y.0) (groups srcs edges)
  All-groups a [] edges h = tt
  All-groups a (src ∷ rest) edges h =
      All-append (λ (y : ℕ × ℕ). dist a ≤ y.0) (group src (targets edges src)) (groups rest edges)
        (All-group (λ (y : ℕ × ℕ). dist a ≤ y.0) src (targets edges src) (λ d. omega (arith, h.0)))
        (All-groups a rest edges h.1)
