-- ===== src/Fusion/Push/Mass.antt =====
-- The push of bench/tjs_open_ref.py, round by round: its mass, its fuel and the nodes it touches.
use tridb.Base.{
  ap, ◌∙◌, ℕ, zero, suc, ◌+◌, ◌-◌, ◌*◌, ◌/◌, ◌≤◌, ◌<◌, ◌≡◌, refl, ◌&&◌, some, List, [], ◌∷◌, ◌==◌,
  leb, if◌then◌else◌, length, insert, arith, Bool-cases, inl, inr, List-cases, length-insert,
}
use native.Mathlib.Nat.{
  mul-div-le, mul-le-mul_right, le_trans, le_refl, mul-le-mul, mul-le-mul_left,
}
use tridb.Fusion.Scores.{score, put, total, total-put}
use tridb.Fusion.Push.Heap.{Entry, entry, pop_best, length-pop_best}
use tridb.Fusion.Push.{unit, State, kept_part, spread_part, scatter, push, round, loop}

-- What the loop over the neighbours does to the four parts.
record Scattered (c : ℕ) (vs : List ℕ) (s t : State) : Type 0 where
  pub mass : total t.residue ≡ total s.residue + length vs * c
  pub kept : t.reserve ≡ s.reserve
  pub nodes : length t.touched ≤ length s.touched + length vs
  pub queue : length t.heap ≤ length s.heap + length vs

scatter_lem : (r_max c : ℕ) (vs : List ℕ) (s : State) → Scattered c vs s (scatter r_max c vs s)
unfolding scatter
scatter_lem r_max c [] s = record {
  mass = omega arith;
  kept = refl;
  nodes = omega arith;
  queue = omega arith;
}
scatter_lem r_max c (v ∷ vs) s =
    let nv = score s.residue v + c in
    let s' : State = record s {
      residue = put s.residue v nv;
      touched = insert s.touched v;
      heap = if leb r_max nv then entry nv v ∷ s.heap else s.heap;
    } in
    let rest = scatter_lem r_max c vs s' in
    record {
      mass = omega (arith, rest.mass, total-put s.residue v nv);
      kept = rest.kept;
      nodes = omega (arith, rest.nodes, length-insert s.touched v);
      queue = ground (arith, rest.queue);
    }

floors_bound : (a b r : ℕ) → a + b ≡ unit → a * r / unit + b * r / unit ≤ r
floors_bound a b r e = omega (arith, ap (λ (t : ℕ). t * r) e)

-- The parts of a push hand on no more than the mass pushed.
parts_bound :
    (alpha ru deg : ℕ) → alpha ≤ unit → kept_part alpha ru + deg * spread_part alpha ru deg ≤ ru
parts_bound alpha ru deg h = omega (
  arith,
  floors_bound alpha (unit - alpha) ru (omega arith),
  mul-div-le ((unit - alpha) * ru / unit) deg,
)

kept_part_mono : (alpha a b : ℕ) → a ≤ b → kept_part alpha a ≤ kept_part alpha b
kept_part_mono alpha a b h = omega (arith, mul-le-mul_left alpha h)

-- One push, in numbers: the reserve grows from `k` to `k'`, which pays for `deg` nodes and entries.
pays_for :
    (degree deg q kept k k' one : ℕ)
    → deg ≤ degree
    → q ≤ kept
    → 0 < q
    → k' ≡ k + kept
    → k' ≤ one
    → (degree * k + deg * q ≤ degree * k') × (deg + degree * (one - k') ≤ degree * (one - k))
pays_for degree deg q kept k k' one a b c e f =
    let rest : one - k ≡ (one - k') + kept = omega arith in
    (
      omega (arith, mul-le-mul a b, ap (λ (t : ℕ). degree * t) e),
      omega (arith, mul-le-mul a (le_trans c b), ap (λ (t : ℕ). degree * t) rest),
    )

module _ (adj : ℕ → List ℕ) (alpha r_max : ℕ) where
  -- What every push keeps for its node, at the least.
  abbrev pub quantum : ℕ
  quantum = kept_part alpha r_max

  -- The mass is at most `one`, and each node beyond the first `n` was paid for.
  pub record IsPaid (one degree n : ℕ) (s : State) : Type 0 where
    pub mass : total s.residue + total s.reserve ≤ one
    pub paid : length s.touched * quantum ≤ n * quantum + degree * total s.reserve

  -- What is left to do; a push pays with at least one unit of reserve.
  abbrev pub work : ℕ → ℕ → State → ℕ
  work one degree s = length s.heap + degree * (one - total s.reserve)

  module _ (one degree n : ℕ) (small : alpha ≤ unit) (pays : 0 < quantum)
      (bounded : (u : ℕ) → length (adj u) ≤ degree) where
    push_lem :
        (u : ℕ) (s : State)
        → r_max ≤ score s.residue u
        → IsPaid one degree n s
        → IsPaid one degree n (push adj alpha r_max u (score s.residue u) s)
          × (work one degree (push adj alpha r_max u (score s.residue u) s) ≤ work one degree s)
    unfolding push
    push_lem u s h inv =
        let ru = score s.residue u in
        let deg = length (adj u) in
        let moved : State = record s {
          reserve = put s.reserve u (score s.reserve u + kept_part alpha ru);
          residue = put s.residue u 0;
        } in
        let all = scatter_lem r_max (spread_part alpha ru deg) (adj u) moved in
        let reserve_total = total-put s.reserve u (score s.reserve u + kept_part alpha ru) in
        let residue_total = total-put s.residue u 0 in
        let parts = parts_bound alpha ru deg small in
        let least = kept_part_mono alpha r_max ru h in
        let after = push adj alpha r_max u ru s in
        let kept_total : total after.reserve ≡ total s.reserve + kept_part alpha ru =
          ap total all.kept ∙ omega (arith, reserve_total) in
        let mass_total : total after.residue + total after.reserve ≤ one =
          omega (arith, all.mass, kept_total, residue_total, parts, inv.mass) in
        let (buys, frees) =
          pays_for degree deg quantum (kept_part alpha ru) (total s.reserve) (total after.reserve)
            one (bounded u) least pays kept_total (omega arith) in
        (
          record {
            mass = mass_total;
            paid = omega (arith, inv.paid, buys, mul-le-mul_right quantum all.nodes);
          },
          omega (arith, all.queue, frees),
        )

    -- A round never adds work, and keeps what is paid paid.
    round_lem :
        (e : Entry) (s : State)
        → IsPaid one degree n s
        → IsPaid one degree n (round adj alpha r_max e s)
          × (work one degree (round adj alpha r_max e s) ≤ work one degree s)
    unfolding round
    round_lem e s inv =
        elim (Bool-cases (e.mass == score s.residue e.node && leb r_max (score s.residue e.node))) [
          | inl live ↦ rw live (push_lem e.node s (ground arith) inv)
          | inr stale ↦ rw stale (inv, le_refl _)
        ]

    -- With more fuel than work the loop ends, with an empty heap.
    pub loop_lem :
        (fuel : ℕ) (s : State)
        → IsPaid one degree n s
        → work one degree s ≤ fuel
        → (t : State) × (loop adj alpha r_max fuel s ≡ some t)
          × (IsPaid one degree n t × (t.heap ≡ []))
    unfolding loop
    loop_lem zero s inv h = elim (List-cases s.heap) [
      | inl empty ↦ (s, ground arith, (inv, empty))
      | inr (e, rest, full) ↦ absurd (omega (arith, ap length full))
    ]
    loop_lem (suc fuel) s inv h = elim (List-cases s.heap) [
      | inl empty ↦ (s, ground arith, (inv, empty))
      | inr (e, rest, full) ↦
          let (best, others) = pop_best e rest in
          let popped : State = record s { heap = others } in
          let (inv', less) = round_lem best popped (record { mass = inv.mass; paid = inv.paid }) in
          let (t, ends, rest_holds) =
            loop_lem fuel (round adj alpha r_max best popped) inv'
              (omega (arith, less, ap length full, length-pop_best e rest)) in
          (t, ground arith, rest_holds)
    ]
