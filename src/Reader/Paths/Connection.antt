-- ===== src/Reader/Paths/Connection.antt =====
-- What connection_path answers, on an index whose links go both ways.
use tridb.Base.{
  ap, ◌∙◌, ℕ, ◌-◌, ◌≤◌, ◌<◌, ◌≡◌, ◌≢◌, refl, ◌⊎◌, inl, inr, true, ◌||◌, none, some, List, [], ◌∷◌,
  ◌==◌, leb, length, contains, arith, Bool-cases,
}
use tridb.Reader.Paths.{
  has, Outcome, found, missed, gave_up, chain, Csr, undir_neighbors, Answer, no_path, path,
  key_error, answer_of, search_both, connection_path,
}
use tridb.Reader.Paths.Trees.{Walks, at_start, onwards, root}
use tridb.Reader.Paths.Sides.{Side}
use tridb.Reader.Paths.Shortest.{Shortest, Ends, search-Ends}

root_known :
    (neighbours : ℕ → List ℕ) (a n x : ℕ)
    → n ≤ 0
    → Walks neighbours a n x
    → has ((a, none) ∷ []) x ≡ true
root_known neighbours a n x few (at_start e) = ground (arith, e)
root_known neighbours a n x few (onwards walk link) = absurd (omega (arith, few))

root_Side : (neighbours : ℕ → List ℕ) (a : ℕ) → Side neighbours a 0 ((a, none) ∷ []) (a ∷ [])
root_Side neighbours a = record {
  grown = record {
    tree = record { top = λ x h. ground arith; linked = λ x y h. absurd (ground arith) };
    back = λ x h. (0, omega arith, omega arith, root (ground arith));
  };
  complete = root_known neighbours a;
  closed = λ s y known behind link. absurd (ground arith);
  inside = λ s h. ground arith;
}

module _ (c : Csr) (a b max_hops max_expand : ℕ) where
  -- What an answer promises.
  abbrev pub Promises : Answer → Type 0
  Promises (path l) = Shortest (undir_neighbors c) a b max_hops l
  Promises no_path =
      ((n : ℕ) → Walks (undir_neighbors c) a n b → max_hops < n)
      ⊎ ((touched : ℕ) × (search_both c a b max_hops max_expand ≡ gave_up touched)
          × (max_expand < touched))
  Promises key_error = ⊥

module _ (c : Csr)
    (both : (x y : ℕ)
      → contains (undir_neighbors c x) y ≡ true
      → contains (undir_neighbors c y) x ≡ true)
    (a b max_hops max_expand : ℕ) where
  promised :
      (o : Outcome)
      → search_both c a b max_hops max_expand ≡ o
      → Ends (undir_neighbors c) both a b max_hops max_expand o
      → Promises c a b max_hops max_expand (answer_of o)
  unfolding chain
  promised (found x pa pb) e (l, made, short) = rw (answer_of, made) short
  promised missed e far = inl far
  promised (gave_up touched) e over = inr (touched, e, over)

  no_neighbours : (x : ℕ) → length c.off - 1 ≤ x → undir_neighbors c x ≡ []
  unfolding undir_neighbors
  no_neighbours x h = ground arith

  -- An id that the index does not have is linked to nothing.
  outside :
      (n : ℕ)
      → (length c.off - 1 ≤ a) ⊎ (length c.off - 1 ≤ b)
      → a ≢ b
      → Walks (undir_neighbors c) a n b
      → ⊥
  outside n (inl out) differ walk = from_a n b walk differ
    where
      from_a : (n x : ℕ) → Walks (undir_neighbors c) a n x → a ≢ x → ⊥
      from_a n x (at_start e) differ = differ e
      from_a n x (onwards {x = z} walk link) differ = elim (Bool-cases (a == z)) [
        | inl same ↦
            let one : z ≡ a = ground arith in
            let none_here =
              ap (λ i. contains (undir_neighbors c i) x) one
              ∙ ap (λ l. contains l x) (no_neighbours a out) in
            absurd (cc)
        | inr other ↦ from_a _ z walk (λ e. ground (arith, e))
      ]
  outside n (inr out) differ (at_start e) = differ e
  outside n (inr out) differ (onwards {x = z} walk link) =
      let back = both z b link in
      let none_here = ap (λ l. contains l z) (no_neighbours b out) in absurd (cc)

  -- On an index whose links go both ways, connection_path answers with a chain of links from `a`
  -- to `b`, of at most `max_hops` links, that no other way undercuts; or with None, and then every
  -- way is longer than `max_hops`, or the search has touched more than `max_expand` nodes.
  -- Reading a parent never fails.
  pub connection_path-Promises :
      Promises c a b max_hops max_expand (connection_path (some c) a b max_hops max_expand)
  unfolding connection_path
  connection_path-Promises = elim (Bool-cases (a == b)) [
    | inl same ↦ rw same (record {
      route = (refl, ground arith);
      least = λ n walk. omega arith;
      within = omega arith;
    })
    | inr differ ↦
        rw differ (elim (Bool-cases (leb (length c.off - 1) a || leb (length c.off - 1) b)) [
          | inl out ↦
              rw out (inl (λ n walk. absurd (outside n (beyond out) (λ e. ground (arith, e)) walk)))
          | inr inside ↦ rw inside (
              promised (search_both c a b max_hops max_expand) refl (
                search-Ends (undir_neighbors c) both a b max_hops max_expand max_hops 0 0
                  ((a, none) ∷ []) ((b, none) ∷ []) (a ∷ []) (b ∷ [])
                  (root_Side (undir_neighbors c) a) (root_Side (undir_neighbors c) b)
                  (λ x h. ground arith) (omega arith)))
        ])
  ]
    where
      beyond :
          (leb (length c.off - 1) a || leb (length c.off - 1) b) ≡ true
          → (length c.off - 1 ≤ a) ⊎ (length c.off - 1 ≤ b)
      beyond h = elim (Bool-cases (leb (length c.off - 1) a)) [
        | inl first ↦ inl (ground arith)
        | inr later ↦ inr (ground arith)
      ]
