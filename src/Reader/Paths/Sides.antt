-- ===== src/Reader/Paths/Sides.antt =====
-- One side of the search after some rounds: what it knows, and that a round takes it one link further.
use native.Mathlib.Decide.{dec_lt}
use tridb.Base.{
  ℕ, suc, ◌+◌, ◌≤◌, ◌<◌, ◌≡◌, refl, inl, inr, true, false, List, [], contains, arith, Bool-cases,
}
use tridb.Reader.Paths.{Parents, has, Wave, wave}
use tridb.Reader.Paths.Trees.{Walks, at_start, onwards}
use tridb.Reader.Paths.Waves.{Grown, Growing, Continues}

module _ (neighbours : ℕ → List ℕ) where
  pub record Side (a r : ℕ) (p : Parents) (frontier : List ℕ) : Type 0 where
    pub grown : Grown neighbours a r p
    pub complete : (n x : ℕ) → n ≤ r → Walks neighbours a n x → has p x ≡ true
    pub closed :
        (s y : ℕ)
        → has p s ≡ true
        → contains frontier s ≡ false
        → contains (neighbours s) y ≡ true
        → has p y ≡ true
    pub inside : (s : ℕ) → contains frontier s ≡ true → has p s ≡ true

  abbrev pub Apart : Parents → Parents → Type 0
  Apart p q = (x : ℕ) → has p x ≡ true → has q x ≡ false

  pub Apart-sym : (p q : Parents) → Apart p q → Apart q p
  Apart-sym p q h x e = elim (Bool-cases (has p x)) [
    | inl there ↦ absurd (ground (arith, h x there, e))
    | inr away ↦ away
  ]

  pub start_wave :
      (a r : ℕ) (p other : Parents) (frontier : List ℕ)
      → Side a r p frontier
      → Apart p other
      → Growing neighbours a other r p (wave p)
  start_wave a r p other frontier s apart = record {
    grown = record {
      tree = s.grown.tree;
      back =
          λ x h. let (d, few, within, b) = s.grown.back x h in (d, omega (arith, few), within, b);
    };
    near = s.grown.back;
    news = λ x h. ground (arith, h);
    inside = λ x h. absurd (cc);
    apart = apart;
  }

  module _ (a r : ℕ) (p other : Parents) (frontier : List ℕ) (w : Wave) (s : Side a r p frontier)
      (c : Continues neighbours a other r p (wave p) w)
      (seen : (x y : ℕ)
        → contains frontier x ≡ true
        → contains (neighbours x) y ≡ true
        → has w.parent y ≡ true) where
    one_link : (x y : ℕ) → has p x ≡ true → contains (neighbours x) y ≡ true → has w.parent y ≡ true
    one_link x y known link = elim (Bool-cases (contains frontier x)) [
      | inl front ↦ seen x y front link
      | inr behind ↦ c.more y (s.closed x y known behind link)
    ]

    further : (n x : ℕ) → n ≤ suc r → Walks neighbours a n x → has w.parent x ≡ true
    further n x few (at_start e) = c.more x (s.complete 0 x (omega arith) (at_start e))
    further n x few (onwards {n = m} {x = z} walk link) =
        one_link z x (s.complete m z (omega (arith, few)) walk) link

    pub next-Side : Side a (suc r) w.parent w.nxt
    next-Side = record {
      grown = c.growing.grown;
      complete = further;
      closed =
          λ x y known out link. one_link x y (ground (arith, c.growing.news x known, out)) link;
      inside = c.growing.inside;
    }

  -- A side without a frontier has met everything that its root is linked to.
  pub exhausted :
      (a r : ℕ) (p : Parents) → Side a r p [] → (n x : ℕ) → Walks neighbours a n x → has p x ≡ true
  exhausted a r p s n x (at_start e) = s.complete 0 x (omega arith) (at_start e)
  exhausted a r p s n x (onwards {n = m} {x = z} walk link) =
      s.closed z x (exhausted a r p s m z walk) refl link

  module _ (both : (x y : ℕ) → contains (neighbours x) y ≡ true → contains (neighbours y) x ≡ true)
      (a b r q : ℕ) (pa pb : Parents) (fa fb : List ℕ) (sa : Side a r pa fa) (sb : Side b q pb fb)
      (apart : Apart pa pb) where
    not_near : (n k x : ℕ) → Walks neighbours a n x → Walks neighbours b k x → n ≤ r → k ≤ q → ⊥
    not_near n k x walk back near few =
        let known = sa.complete n x near walk in
        ground (arith, apart x known, sb.complete k x few back)

    -- The two sides together know every way from `a` to `b` of at most `r + q` links.
    pub too_short :
        (n k x : ℕ) → Walks neighbours a n x → Walks neighbours b k x → k ≤ q → r + q < n + k
    too_short n k x (at_start e) back few =
        absurd (not_near n k x (at_start e) back (omega arith) few)
    too_short n k x (onwards {n = m} {x = z} walk link) back few = elim (dec_lt r (suc m)) [
      | no near ↦ absurd (not_near n k x (onwards walk link) back (omega (arith, near)) few)
      | yes far ↦ elim (dec_lt k q) [
        | yes room ↦
            omega (
              arith,
              too_short m (suc k) z walk (onwards back (both z x link)) (omega (arith, room)),
            )
        | no filled ↦ omega (arith, far, filled, few)
      ]
    ]
