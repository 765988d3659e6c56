-- ===== src/Reader/Paths/Shortest.antt =====
-- connection_path finds a shortest chain of links, or says that there is none within its bounds.
use tridb.Base.{
  ap, ◌∙◌, ℕ, zero, suc, ◌+◌, ◌≤◌, ◌<◌, ◌≡◌, refl, inl, inr, true, Option, none, some, List, [],
  ◌∷◌, leb, length, contains, arith, Bool-cases,
}
use tridb.Reader.Pending.{get}
use tridb.Reader.Paths.{
  Parents, has, Wave, wave, expand, Outcome, found, missed, gave_up, is_over, after_wave, search,
  trace, rev_onto, chain,
}
use tridb.Reader.Paths.Trees.{
  Walks, at_start, onwards, Route, Back, root, up, Climbs, trace-Climbs, rev_onto-Route,
  Climbs-Route, length-rev_onto,
}
use tridb.Reader.Paths.Waves.{Grown, Met, Expanded, expand-Expanded, Continues}
use tridb.Reader.Paths.Sides.{Side, Apart, Apart-sym, start_wave, next-Side, exhausted, too_short}

module _ (neighbours : ℕ → List ℕ) (a b max_hops : ℕ) where
  -- A chain of links from `a` to `b` that no walk undercuts, of at most `max_hops` links.
  pub record Shortest (l : List ℕ) : Type 0 where
    pub route : Route neighbours a b l
    pub least : (n : ℕ) → Walks neighbours a n b → length l ≤ suc n
    pub within : length l ≤ suc max_hops

module _ (neighbours : ℕ → List ℕ)
    (both : (x y : ℕ) → contains (neighbours x) y ≡ true → contains (neighbours y) x ≡ true)
    (a b max_hops max_expand : ℕ) where
  abbrev pub Ends : Outcome → Type 0
  Ends (found x pa pb) =
      (l : List ℕ) × (chain x pa pb ≡ some l) × Shortest neighbours a b max_hops l
  Ends missed = (n : ℕ) → Walks neighbours a n b → max_hops < n
  Ends (gave_up touched) = max_expand < touched

  below_root :
      (p : Parents) (d x : ℕ)
      → Back p d x
      → d < length p
      → (o : Option ℕ) × (r : List ℕ) × (get p x ≡ some o)
        × (trace p (length p) o ≡ some r)
        × (length r ≡ d)
        × Climbs p o r
  unfolding trace
  below_root p d x (root e) h = (none, [], e, refl, refl, refl)
  below_root p d x (up y e back) h =
      let (l, t, n, c) = trace-Climbs p (length p) _ y back (omega arith) in
      (some y, y ∷ l, e, t, ap suc n, c)

  -- The sides meet at `x`.
  meet-Ends :
      (ra rb x : ℕ) (pa pb : Parents)
      → Grown neighbours a ra pa
      → Grown neighbours b rb pb
      → has pa x ≡ true
      → has pb x ≡ true
      → ra + rb ≤ max_hops
      → ((n : ℕ) → Walks neighbours a n b → ra + rb ≤ n)
      → Ends (found x pa pb)
  unfolding chain
  meet-Ends ra rb x pa pb ga gb in_a in_b few least =
      let (d, d_few, d_in, d_back) = ga.back x in_a in
      let (e, e_few, e_in, e_back) = gb.back x in_b in
      let (l, t, n, c) = trace-Climbs pa (length pa) d x d_back d_in in
      let (o, r, g, u, m, k) = below_root pb e x e_back e_in in
      let tail = Climbs-Route neighbours both b pb x o r gb.tree g k in
      (
        rev_onto (x ∷ l) r,
        rw (chain, t) (rw g (rw u refl)),
        record {
          route = rev_onto-Route neighbours a b pa x l r ga.tree c tail;
          least = λ i walk. omega (arith, length-rev_onto (x ∷ l) r, n, m, least i walk);
          within = omega (arith, length-rev_onto (x ∷ l) r, n, m);
        },
      )

  -- A round that ends the search, or leaves it to the later rounds.
  round-Ends :
      (r : ℕ) (p other : Parents) (frontier : List ℕ) (root_of : ℕ) (w : Wave)
      (met : ℕ → Parents → Outcome) (rest : Outcome)
      → ((x : ℕ) → Met neighbours root_of other r w x → Ends (met x w.parent))
      → (Continues neighbours root_of other r p (wave p) w
          → ((s y : ℕ)
              → contains frontier s ≡ true
              → contains (neighbours s) y ≡ true
              → has w.parent y ≡ true)
          → Ends rest)
      → Expanded neighbours root_of other max_expand r p frontier (wave p) w
      → Ends (after_wave max_expand other w met rest)
  round-Ends r p other frontier root_of w met rest on_met on_rest (inl (x, m)) =
      rw (after_wave, m.at) (on_met x m)
  round-Ends r p other frontier root_of w met rest on_met on_rest (inr (inl (unmet, over))) =
      rw (after_wave, unmet) (rw over (ground arith))
  round-Ends r p other frontier root_of w met rest on_met on_rest (inr (inr (c, seen))) =
      rw (after_wave, c.unmet)
        (elim (Bool-cases (is_over max_expand w.parent other)) [
          | inl over ↦ rw over (ground arith)
          | inr under ↦ rw under (on_rest c seen)
        ])

  -- A side without a frontier that does not hold the other root holds no way to it.
  from_known :
      (q : ℕ) (pb : Parents)
      → Side neighbours b q pb []
      → (n x : ℕ) → Walks neighbours a n x
      → has pb x ≡ true
      → has pb a ≡ true
  from_known q pb s n x (at_start e) h = ap (has pb) e ∙ h
  from_known q pb s n x (onwards {n = m} {x = z} walk link) h =
      from_known q pb s m z walk (s.closed x z h refl (both z x link))

  module _ (rounds r q : ℕ) (pa pb : Parents) (fa fb : List ℕ) (sa : Side neighbours a r pa fa)
      (sb : Side neighbours b q pb fb) (apart : Apart neighbours pa pb)
      (sum : r + q + suc rounds ≡ max_hops) where
    far : (n : ℕ) → Walks neighbours a n b → r + q < n
    far n walk = omega (
      arith,
      too_short neighbours both a b r q pa pb fa fb sa sb apart n 0 b walk (at_start refl)
          (omega arith),
    )

    abbrev wave_a : Wave
    wave_a = expand neighbours max_expand pb fa (wave pa)

    abbrev wave_b : Wave
    wave_b = expand neighbours max_expand pa fb (wave pb)

    round_a :
        (rest : Outcome)
        → (Side neighbours a (suc r) wave_a.parent wave_a.nxt
            → Apart neighbours wave_a.parent pb
            → Ends rest)
        → Ends (after_wave max_expand pb wave_a (λ x p. found x p pb) rest)
    round_a rest later =
        round-Ends r pa pb fa a wave_a (λ x p. found x p pb) rest
          (λ x m.
            meet-Ends (suc r) q x wave_a.parent pb m.grown sb.grown m.this m.that
              (omega (arith, sum)) (λ n walk. omega (arith, far n walk)))
          (λ c seen. later (next-Side neighbours a r pa pb fa wave_a sa c seen) c.growing.apart)
          (expand-Expanded neighbours a pb max_expand r pa fa (wave pa) sa.inside refl
            (start_wave neighbours a r pa pb fa sa apart))

    round_b :
        (rest : Outcome)
        → (Side neighbours b (suc q) wave_b.parent wave_b.nxt
            → Apart neighbours wave_b.parent pa
            → Ends rest)
        → Ends (after_wave max_expand pa wave_b (λ x p. found x pa p) rest)
    round_b rest later =
        round-Ends q pb pa fb b wave_b (λ x p. found x pa p) rest
          (λ x m.
            meet-Ends r (suc q) x pa wave_b.parent sa.grown m.grown m.that m.this
              (omega (arith, sum)) (λ n walk. omega (arith, far n walk)))
          (λ c seen. later (next-Side neighbours b q pb pa fb wave_b sb c seen) c.growing.apart)
          (expand-Expanded neighbours b pa max_expand q pb fb (wave pb) sb.inside refl
            (start_wave neighbours b q pb pa fb sb (Apart-sym neighbours pa pb apart)))

  pub search-Ends :
      (rounds r q : ℕ) (pa pb : Parents) (fa fb : List ℕ)
      → Side neighbours a r pa fa
      → Side neighbours b q pb fb
      → Apart neighbours pa pb
      → r + q + rounds ≡ max_hops
      → Ends (search neighbours max_expand rounds pa pb fa fb)
  unfolding search
  search-Ends zero r q pa pb fa fb sa sb apart sum = λ n walk. omega (
    arith,
    sum,
    too_short neighbours both a b r q pa pb fa fb sa sb apart n 0 b walk (at_start refl)
        (omega arith),
  )
  search-Ends (suc rounds) r q pa pb [] fb sa sb apart sum = λ n walk.
      let known = exhausted neighbours a r pa sa n b walk in
      absurd (ground (arith, apart b known, sb.complete 0 b (omega arith) (at_start refl)))
  search-Ends (suc rounds) r q pa pb (x ∷ fa) [] sa sb apart sum = λ n walk.
      let own = sb.complete 0 b (omega arith) (at_start refl) in
      let known = sa.complete 0 a (omega arith) (at_start refl) in
      absurd (ground (arith, apart a known, from_known q pb sb n b walk own))
  search-Ends (suc rounds) r q pa pb (x ∷ fa) (y ∷ fb) sa sb apart sum =
      elim (Bool-cases (leb (length (x ∷ fa)) (length (y ∷ fb)))) [
        | inl smaller ↦
            rw (Ends, search, smaller)
              (round_a rounds r q pa pb (x ∷ fa) (y ∷ fb) sa sb apart sum _ (λ s apart'.
                search-Ends rounds (suc r) q _ pb _ (y ∷ fb) s sb apart' (omega (arith, sum))))
        | inr larger ↦
            rw (Ends, search, larger)
              (round_b rounds r q pa pb (x ∷ fa) (y ∷ fb) sa sb apart sum _ (λ s apart'.
                search-Ends rounds r (suc q) pa _ (x ∷ fa) _ sa s (Apart-sym neighbours _ pa apart')
                  (omega (arith, sum))))
      ]
