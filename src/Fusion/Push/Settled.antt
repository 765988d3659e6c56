-- ===== src/Fusion/Push/Settled.antt =====
-- The push of bench/tjs_open_ref.py, round by round: the residues that no heap entry stands for.
use tridb.Base.{
  ℕ, zero, suc, ◌+◌, ◌≤◌, ◌<◌, ◌≡◌, true, ◌&&◌, some, List, [], ◌∷◌, ◌==◌, leb, if◌then◌else◌,
  length, insert, arith, Bool-cases, inl, inr, List-cases,
}
use tridb.Fusion.Scores.{Scores, score, put, score-put}
use tridb.Fusion.Push.Heap.{Entry, entry, pop_best, waits, waits-pop_best}
use tridb.Fusion.Push.{State, spread_part, entries, scatter, push, round, loop, start}

module _ (r_max : ℕ) where
  -- Each node with a residue of `r_max` or more waits in the heap with that residue.
  abbrev pub Settled : State → Type 0
  Settled s = (v : ℕ) → r_max ≤ score s.residue v → waits s.heap (score s.residue v) v ≡ true

  Settled-visit :
      (v c : ℕ) (s : State)
      → Settled s
      → let nv = score s.residue v + c in
        Settled (record s {
          residue = put s.residue v nv;
          touched = insert s.touched v;
          heap = if leb r_max nv then entry nv v ∷ s.heap else s.heap;
        })
  Settled-visit v c s h w = ground (arith, score-put s.residue v (score s.residue v + c) w, h w)

  Settled-scatter : (c : ℕ) (vs : List ℕ) (s : State) → Settled s → Settled (scatter r_max c vs s)
  unfolding scatter
  Settled-scatter c [] s h = h
  Settled-scatter c (v ∷ vs) s h = Settled-scatter c vs _ (Settled-visit v c s h)

  -- After a pop, only the popped entry's node may be unsettled.
  Settled-round :
      (adj : ℕ → List ℕ) (alpha : ℕ) (e : Entry) (s : State)
      → 0 < r_max
      → Settled (record s { heap = e ∷ s.heap })
      → Settled (round adj alpha r_max e s)
  unfolding round push
  Settled-round adj alpha e s p h =
      elim (Bool-cases (e.mass == score s.residue e.node && leb r_max (score s.residue e.node))) [
        | inl live ↦ rw live (
            Settled-scatter (spread_part alpha (score s.residue e.node) (length (adj e.node)))
              (adj e.node) _ (λ v big. ground (arith, h v, score-put s.residue e.node 0 v)))
        | inr stale ↦ rw stale (λ v big. ground (arith, h v))
      ]

  pub Settled-loop :
      (adj : ℕ → List ℕ) (alpha fuel : ℕ) (s t : State)
      → 0 < r_max
      → Settled s
      → loop adj alpha r_max fuel s ≡ some t
      → Settled t
  unfolding loop
  Settled-loop adj alpha zero s t p h e = ground arith
  Settled-loop adj alpha (suc fuel) s t p h e = elim (List-cases s.heap) [
    | inl empty ↦ ground arith
    | inr (x, rest, full) ↦
        let (best, others) = pop_best x rest in
        let popped : State = record s { heap = others } in
        Settled-loop adj alpha fuel (round adj alpha r_max best popped) t p
          (Settled-round adj alpha best popped p
            (λ v big. ground (arith, waits-pop_best x rest (score s.residue v) v, h v)))
          (ground arith)
  ]

  waits-entries :
      (weights : Scores) (v : ℕ)
      → 0 < score weights v
      → waits (entries weights) (score weights v) v ≡ true
  waits-entries [] v h = absurd (omega arith)
  waits-entries ((s, w) ∷ rest) v h = ground (arith, waits-entries rest v)

  pub Settled-start : (weights : Scores) → 0 < r_max → Settled (start weights)
  Settled-start weights p v big = waits-entries weights v (omega arith)
