-- ===== src/Baseline/Groups.antt =====
-- The candidates of bench/harness.py, sorted, source by source.
use tridb.Base.{
  sym, ap, ◌∙◌, ℕ, ◌≤◌, ◌<◌, ◌≡◌, refl, true, false, ◌&&◌, List, [], ◌∷◌, ◌++◌, ◌==◌, if◌then◌else◌,
  contains, arith, Bool-cases, inl, inr, All-append,
}
use tridb.Driver.{Corpus, in_range, targets}
use tridb.Baseline.{place_candidate, sort_candidates, qualify, graph_pairs}
use tridb.Baseline.Order.{
  Rising, dist, group, groups, All-group, All-groups, place-first, place-past, at-All,
}

module _ (c : Corpus) (q_emb time_range : List ℕ) where
  abbrev distance : ℕ → ℕ
  distance = dist c q_emb time_range

  group-step :
      (src s d : ℕ) (rest : List (ℕ × ℕ))
      → group c q_emb time_range src (targets ((s, d) ∷ rest) src) ≡ (
          let more = group c q_emb time_range src (targets rest src) in
          if s == src && in_range c time_range d then (distance src, d) ∷ more else more)
  group-step src s d rest = elim (Bool-cases (s == src)) [
    | inl same ↦ elim (Bool-cases (in_range c time_range d)) [
      | inl inside ↦ rw (same, inside) refl
      | inr out ↦ rw (same, out) refl
    ]
    | inr other ↦ rw other refl
  ]

  -- An edge that does not qualify adds nothing.
  groups-skip :
      (srcs : List ℕ) (s d : ℕ) (rest : List (ℕ × ℕ))
      → (contains srcs s && in_range c time_range d) ≡ false
      → groups c q_emb time_range srcs ((s, d) ∷ rest) ≡ groups c q_emb time_range srcs rest
  groups-skip [] s d rest h = refl
  groups-skip (r ∷ rs) s d rest h =
      let here : (s == r && in_range c time_range d) ≡ false = ground arith in
      let there : (contains rs s && in_range c time_range d) ≡ false = ground arith in
      let same : group c q_emb time_range r (targets ((s, d) ∷ rest) r)
          ≡ group c q_emb time_range r (targets rest r) =
        group-step r s d rest ∙ (rw here refl) in
      ap (λ l. l ++ groups c q_emb time_range rs ((s, d) ∷ rest)) same
      ∙ ap (λ l. group c q_emb time_range r (targets rest r) ++ l) (groups-skip rs s d rest there)

  below_self : {s r : ℕ} → s ≡ r → distance r < distance s → ⊥
  below_self e l = let same = ap distance e in omega (arith, same, l)

  groups-place :
      (srcs : List ℕ) (s d : ℕ) (rest : List (ℕ × ℕ))
      → Rising distance srcs
      → contains srcs s ≡ true
      → in_range c time_range d ≡ true
      → place_candidate (distance s, d) (groups c q_emb time_range srcs rest)
        ≡ groups c q_emb time_range srcs ((s, d) ∷ rest)
  groups-place [] s d rest r h i = cc
  groups-place (r ∷ rs) s d rest h here inside = elim (Bool-cases (s == r)) [
    | inl same ↦
        let e : s ≡ r = ground arith in
        let absent : contains rs s ≡ false = elim (Bool-cases (contains rs s)) [
          | inl again ↦ absurd (
              below_self e
                (at-All (λ y. distance r < distance y) rs s (λ x e' l. rw (sym e') l) h.0 again))
          | inr no' ↦ no'
        ] in
        let added = groups-skip rs s d rest (rw absent refl) in
        let grown : group c q_emb time_range r (targets ((s, d) ∷ rest) r)
            ≡ (distance r, d) ∷ group c q_emb time_range r (targets rest r) =
          group-step r s d rest ∙ (rw (same, inside) refl) in
        ap (λ x. place_candidate (x, d) (groups c q_emb time_range (r ∷ rs) rest)) (ap distance e)
        ∙ place-first (distance r, d) (groups c q_emb time_range (r ∷ rs) rest)
            (All-append (λ (y : ℕ × ℕ). distance r ≤ y.0)
              (group c q_emb time_range r (targets rest r)) (groups c q_emb time_range rs rest)
              (All-group c q_emb time_range (λ (y : ℕ × ℕ). distance r ≤ y.0) r (targets rest r)
                (λ d'. omega arith))
              (All-groups c q_emb time_range r rs rest h.0))
        ∙ sym (
            ap (λ l. l ++ groups c q_emb time_range rs ((s, d) ∷ rest)) grown
            ∙ ap (λ l. ((distance r, d) ∷ group c q_emb time_range r (targets rest r)) ++ l) added)
    | inr other ↦
        let later : contains rs s ≡ true = ground arith in
        let less : distance r < distance s =
          at-All (λ y. distance r < distance y) rs s (λ x e' l. rw (sym e') l) h.0 later in
        let same : group c q_emb time_range r (targets ((s, d) ∷ rest) r)
            ≡ group c q_emb time_range r (targets rest r) =
          group-step r s d rest ∙ (rw other refl) in
        place-past (distance s, d) (group c q_emb time_range r (targets rest r))
          (groups c q_emb time_range rs rest)
          (All-group c q_emb time_range (λ (y : ℕ × ℕ). y.0 < distance s) r (targets rest r)
            (λ d'. less))
        ∙ ap (λ l. group c q_emb time_range r (targets rest r) ++ l)
            (groups-place rs s d rest h.1 later inside)
        ∙ sym (ap (λ l. l ++ groups c q_emb time_range rs ((s, d) ∷ rest)) same)
  ]

  groups-nil : (srcs : List ℕ) → groups c q_emb time_range srcs [] ≡ []
  groups-nil [] = refl
  groups-nil (r ∷ rs) = groups-nil rs

  -- Sorted, the candidates stand source by source.
  pub sorted-groups :
      (srcs : List ℕ) (edges : List (ℕ × ℕ))
      → Rising distance srcs
      → sort_candidates (qualify c q_emb time_range srcs (graph_pairs srcs edges))
        ≡ groups c q_emb time_range srcs edges
  unfolding sort_candidates
  sorted-groups srcs [] h = sym (groups-nil srcs)
  sorted-groups srcs ((s, d) ∷ rest) h = elim (Bool-cases (contains srcs s)) [
    | inl hit ↦ elim (Bool-cases (in_range c time_range d)) [
      | inl inside ↦
          rw (hit, hit, inside)
            (ap (place_candidate (distance s, d)) (sorted-groups srcs rest h)
              ∙ groups-place srcs s d rest h hit inside)
      | inr out ↦
          rw (hit, hit, out)
            (sorted-groups srcs rest h ∙ sym (groups-skip srcs s d rest (rw (hit, out) refl)))
    ]
    | inr miss ↦
        rw miss (sorted-groups srcs rest h ∙ sym (groups-skip srcs s d rest (rw miss refl)))
  ]
