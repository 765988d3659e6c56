-- ===== src/Fusion/Push.antt =====
-- `bounded_push_ppr` of bench/tjs_open_ref.py: the local push. Masses are fixed-point numbers, 1.0
-- being `one`; products and quotients are cut off, and `alpha` is counted in `unit`-ths. The loop
-- takes fuel.
pub mod Heap
pub mod Mass
pub mod Settled
pub mod Bound
use Heap.{Entry, entry, pop_best}
use tridb.Base.{
  ℕ, zero, suc, ◌+◌, ◌-◌, ◌*◌, ◌/◌, Bool, ◌&&◌, Option, none, some, List, [], ◌∷◌, map, ◌==◌, leb,
  if◌then◌else◌, length, insert,
}
use tridb.Fusion.Scores.{Scores, score, put, total}

abbrev pub unit : ℕ
unit = 1000

pub record State : Type 0 where
  pub residue : Scores
  pub reserve : Scores
  pub touched : List ℕ
  pub heap : List Entry

-- alpha * ru, and (1.0 - alpha) * ru / deg
abbrev pub kept_part : ℕ → ℕ → ℕ
kept_part alpha ru = alpha * ru / unit

abbrev pub spread_part : ℕ → ℕ → ℕ → ℕ
spread_part alpha ru deg = (unit - alpha) * ru / unit / deg

-- {s: v / tot for s, v in seed_weights.items()}
abbrev pub normalized : ℕ → ℕ → Scores → Scores
normalized one tot [] = []
normalized one tot ((s, v) ∷ rest) = (s, v * one / tot) ∷ normalized one tot rest

abbrev pub keys : Scores → List ℕ
keys [] = []
keys ((s, v) ∷ rest) = s ∷ keys rest

abbrev pub entries : Scores → List Entry
entries [] = []
entries ((s, v) ∷ rest) = entry v s ∷ entries rest

-- {s: w for s in seeds} with w = 1.0 / max(1, len(seeds))
abbrev pub uniform : ℕ → List ℕ → Scores → Scores
uniform w [] weights = weights
uniform w (s ∷ rest) weights = uniform w rest (put weights s w)

-- The seeds' weights after normalisation; `total or 1.0`.
unfoldable pub personalization : ℕ → List ℕ → Option Scores → Scores
personalization one seeds given =
    let weights : Scores = elim given [
      | some w ↦ w
      | none ↦ uniform (one / (if length seeds == 0 then 1 else length seeds)) seeds []
    ] in
    normalized one (if total weights == 0 then one else total weights) weights

module _ (r_max : ℕ) where
  -- The loop over the neighbours.
  unfoldable pub scatter : ℕ → List ℕ → State → State
  scatter spread [] s = s
  scatter spread (v ∷ vs) s =
      let nv = score s.residue v + spread in
      scatter spread vs (record s {
        residue = put s.residue v nv;
        touched = insert s.touched v;
        heap = if leb r_max nv then entry nv v ∷ s.heap else s.heap;
      })

-- The state before the loop: every seed is touched and waits.
abbrev pub start : Scores → State
start weights = record {
  residue = weights;
  reserve = [];
  touched = keys weights;
  heap = entries weights;
}

module _ (adj : ℕ → List ℕ) (alpha r_max : ℕ) where
  -- One push of the mass `ru` at `u`; without neighbours nothing is spread.
  unfoldable pub push : ℕ → ℕ → State → State
  unfolding scatter
  push u ru s = scatter r_max (spread_part alpha ru (length (adj u))) (adj u) (record s {
    reserve = put s.reserve u (score s.reserve u + kept_part alpha ru);
    residue = put s.residue u 0;
  })

  -- One round on the popped entry: stale entries and small residues are passed over.
  unfoldable pub round : Entry → State → State
  unfolding push
  round e s =
      let ru = score s.residue e.node in
      if e.mass == ru && leb r_max ru then push e.node ru s else s

  unfoldable pub loop : ℕ → State → Option State
  unfolding round
  loop zero s = elim s.heap [ [] ↦ some s | _ ∷ _ ↦ none ]
  loop (suc fuel) s = elim s.heap [
    | [] ↦ some s
    | e ∷ rest ↦
        let (best, others) = pop_best e rest in loop fuel (round best (record s { heap = others }))
  ]

  -- The reserves and `nodes_examined`.
  unfoldable pub bounded_push_ppr : ℕ → Scores → Option (Scores × ℕ)
  unfolding loop
  bounded_push_ppr fuel weights = elim (loop fuel (start weights)) [
    | none ↦ none
    | some s ↦ some (s.reserve, length s.touched)
  ]
