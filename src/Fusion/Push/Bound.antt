-- ===== src/Fusion/Push/Bound.antt =====
-- The local push of bench/tjs_open_ref.py from its start to what it returns: the fuel it needs, and
-- the mass and the nodes it accounts for.
use tridb.Base.{
  ℕ, suc, ◌+◌, ◌*◌, ◌/◌, ◌≤◌, ◌<◌, ◌≡◌, refl, ap, Option, none, some, List, [], ◌∷◌, ◌==◌,
  if◌then◌else◌, length, arith, Bool-cases, inl, inr,
}
use native.Mathlib.Nat.{
  sub-zero, div-mul-le_self, add-mul, zero-mul, zero-div, mul_comm, le_of_mul-le-mul_right,
}
use tridb.Fusion.Scores.{Scores, score, put, total}
use tridb.Fusion.Push.{
  unit, State, start, keys, normalized, uniform, personalization, loop, bounded_push_ppr,
}
use tridb.Fusion.Push.Mass.{quantum, loop_lem, IsPaid, work}
use tridb.Fusion.Push.Settled.{Settled-start, Settled-loop}

length-entries : (weights : Scores) → length (start weights).heap ≡ length weights
length-entries [] = refl
length-entries (_ ∷ rest) = ap suc (length-entries rest)

length-keys : (weights : Scores) → length (keys weights) ≡ length weights
length-keys [] = refl
length-keys (_ ∷ rest) = ap suc (length-keys rest)

IsPaid-start :
    (adj : ℕ → List ℕ) (alpha r_max one degree : ℕ) (weights : Scores)
    → total weights ≤ one
    → IsPaid adj alpha r_max one degree (length weights) (start weights)
IsPaid-start adj alpha r_max one degree weights h = record {
  mass = omega arith;
  paid = rw length-keys (omega arith);
}

work-start :
    (adj : ℕ → List ℕ) (alpha r_max one degree fuel : ℕ) (weights : Scores)
    → length weights + degree * one ≤ fuel
    → work adj alpha r_max one degree (start weights) ≤ fuel
work-start adj alpha r_max one degree fuel weights h =
    simp sub-zero (omega (arith, length-entries weights))

returned :
    (adj : ℕ → List ℕ) (alpha r_max fuel : ℕ) (weights : Scores) (t : State)
    → loop adj alpha r_max fuel (start weights) ≡ some t
    → bounded_push_ppr adj alpha r_max fuel weights ≡ some (t.reserve, length t.touched)
unfolding bounded_push_ppr
returned adj alpha r_max fuel weights t e = ground arith

module _ (adj : ℕ → List ℕ) (alpha r_max one degree : ℕ) (weights : Scores) (fuel : ℕ)
    (small : alpha ≤ unit) (pays : 0 < quantum adj alpha r_max)
    (bounded : (u : ℕ) → length (adj u) ≤ degree) (mass : total weights ≤ one)
    (enough : length weights + degree * one ≤ fuel) where
  -- For alpha at most 1, an `alpha * r_max` that is at least one unit of mass, out-degrees at most
  -- `degree` and weights of mass at most 1.0, with fuel for each seed and for `degree` entries for
  -- each unit of mass: the push returns, the reserves sum to at most 1.0, and the examined nodes
  -- beyond the seeds, times `alpha * r_max`, are at most `degree` times the reserves' sum, whatever
  -- the number of nodes in the graph.
  pub bounded_push_ppr-total :
      (reserves : Scores) × (examined : ℕ) × (bounded_push_ppr adj alpha r_max fuel weights
        ≡ some (reserves, examined))
      × (total reserves ≤ one)
      × (examined * quantum adj alpha r_max
          ≤ length weights * quantum adj alpha r_max + degree * total reserves)
  bounded_push_ppr-total =
      let (t, ends, (inv, _)) =
        loop_lem adj alpha r_max one degree (length weights) small pays bounded fuel (start weights)
          (IsPaid-start adj alpha r_max one degree weights mass)
          (work-start adj alpha r_max one degree fuel weights enough) in
      (
        t.reserve,
        length t.touched,
        returned adj alpha r_max fuel weights t ends,
        omega (arith, inv.mass),
        inv.paid,
      )

  -- For alpha at most 1, a positive floor, an `alpha * r_max` that is at least one unit of mass,
  -- out-degrees at most `degree`, weights of mass at most 1.0, and fuel for each seed and for `degree`
  -- entries for each unit of mass: the loop ends in a state without a residue of `r_max` or more at
  -- any node, and residues and reserves together sum to at most 1.0.
  pub loop_settles :
      0 < r_max
      → (t : State) × (loop adj alpha r_max fuel (start weights) ≡ some t)
        × ((v : ℕ) → score t.residue v < r_max)
        × (total t.residue + total t.reserve ≤ one)
  loop_settles p =
      let (t, ends, (inv, empty)) =
        loop_lem adj alpha r_max one degree (length weights) small pays bounded fuel (start weights)
          (IsPaid-start adj alpha r_max one degree weights mass)
          (work-start adj alpha r_max one degree fuel weights enough) in
      let settled =
        Settled-loop r_max adj alpha fuel (start weights) t p (Settled-start r_max weights p)
          ends in
      (t, ends, λ v. ground (arith, settled v), inv.mass)

total-normalized :
    (one tot : ℕ) (weights : Scores)
    → total (normalized one tot weights) * tot ≤ total weights * one
total-normalized one tot [] = omega arith
total-normalized one tot ((s, v) ∷ rest) = omega (
  arith,
  total-normalized one tot rest,
  div-mul-le_self (v * one) tot,
  add-mul (v * one / tot) (total (normalized one tot rest)) tot,
  add-mul v (total rest) one,
)

scaled_zero : (v one tot : ℕ) → v ≡ 0 → v * one / tot ≡ 0
scaled_zero v one tot e = rw (e, zero-mul, zero-div)

total-normalized_zero :
    (one tot : ℕ) (weights : Scores) → total weights ≡ 0 → total (normalized one tot weights) ≡ 0
total-normalized_zero one tot [] h = refl
total-normalized_zero one tot ((s, v) ∷ rest) h =
    omega
      (arith, scaled_zero v one tot (omega arith), total-normalized_zero one tot rest (omega arith))

length-normalized :
    (one tot : ℕ) (weights : Scores) → length (normalized one tot weights) ≡ length weights
length-normalized one tot [] = refl
length-normalized one tot (_ ∷ rest) = ap suc (length-normalized one tot rest)

length-put : (m : Scores) (k v : ℕ) → length (put m k v) ≤ length m + 1
length-put [] k v = omega arith
length-put ((i, w) ∷ m) k v = ground (arith, length-put m k v)

length-uniform :
    (w : ℕ) (seeds : List ℕ) (m : Scores) → length (uniform w seeds m) ≤ length m + length seeds
length-uniform w [] m = omega arith
length-uniform w (s ∷ rest) m = omega (arith, length-uniform w rest (put m s w), length-put m s w)

total-normalized_self :
    (one : ℕ) (weights : Scores)
    → total (normalized one (if total weights == 0 then one else total weights) weights) ≤ one
total-normalized_self one weights = elim (Bool-cases (total weights == 0)) [
  | inl none_left ↦ omega (arith, total-normalized_zero one _ weights (ground arith))
  | inr some_left ↦ rw some_left (
      le_of_mul-le-mul_right {k = total weights}
        (omega (arith, total-normalized one (total weights) weights, mul_comm one (total weights)))
        (ground arith))
]

-- However the seeds are weighted, the personalization vector has at most the mass 1.0 and, without
-- given weights, at most one entry for each seed.
personalization_bounds :
    (one : ℕ) (seeds : List ℕ) (given : Option Scores)
    → (total (personalization one seeds given) ≤ one)
      × (length (personalization one seeds none) ≤ length seeds)
unfolding personalization
personalization_bounds one seeds given = (
  total-normalized_self one _,
  rw length-normalized (
      omega
        (arith, length-uniform (one / (if length seeds == 0 then 1 else length seeds)) seeds [])),
)
