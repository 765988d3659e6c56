-- ===== src/Planner/Laws.antt =====
-- What the order chosen by src/planner/join_order_ref.py guarantees.
use tridb.Base.{
  refl, ◌≢◌, ℕ, ◌+◌, ◌*◌, ◌≤◌, ◌<◌, ◌≡◌, ◌↔◌, ◌⊎◌, inl, inr, true, arith, min, ◌==◌, leb,
  Bool-cases,
}
use tridb.Base.Int.{ℤ, pos, negsuc, leb_ℤ}
use tridb.Base.Result.{ok}
use tridb.Planner.{
  LegStats, Order, unknown, filter_first, vector_first, unit, clamp_threshold,
  relational_selectivity, choose_order, estimated_intermediate_rows, Explanation, explain,
}

le-mul : (a b n : ℕ) → a ≤ b → a * n ≤ b * n
le-mul a b n h = grind arith

product_min :
    (t n : ℕ)
    → (min unit t * n ≤ t * n)
      × (min unit t * n ≤ unit * n)
      × ((min unit t * n ≡ t * n) ⊎ (min unit t * n ≡ unit * n))
product_min t n = elim (Bool-cases (leb t unit)) [
  | inl below ↦
      let e : min unit t ≡ t = ground (arith, below) in
      rw e (omega arith, le-mul t unit n (ground (arith, below)), inl refl)
  | inr above ↦
      let e : min unit t ≡ unit = ground (arith, above) in
      rw e (le-mul unit t n (ground (arith, above)), omega arith, inr refl)
]

product_mono : (a b n m : ℕ) → a ≤ b → n ≡ m → min unit a * n ≤ min unit b * m
product_mono a b n m h e = grind arith

-- For two queries over tables of one size, fewer matches or a higher threshold never move the
-- planner away from filter-first, for any integer thresholds, out of range ones included.
choose_order_mono :
    (s t : LegStats) (a b : ℤ)
    → t.table_size ≡ s.table_size
    → s.rel_filter_matches ≤ t.rel_filter_matches
    → leb_ℤ a b ≡ true
    → choose_order t a ≡ filter_first
    → choose_order s b ≡ filter_first
unfolding choose_order
choose_order_mono s t (pos a) (pos b) e m h c =
    ground (arith, product_mono a b t.table_size s.table_size)
choose_order_mono s t (pos a) (negsuc b) e m h c = cc
choose_order_mono s t (negsuc a) (pos b) e m h c =
    ground (arith, product_mono 0 b t.table_size s.table_size)
choose_order_mono s t (negsuc a) (negsuc b) e m h c = ground arith

-- The filter goes first, in integers: over a table with rows, the fraction of the rows that match is
-- at most 1 and at most the threshold; the fraction of an empty table counts as 1.
abbrev pub FilterFirst : LegStats → ℤ → Type 0
FilterFirst s (pos t) =
    ((0 < s.table_size)
      × (s.rel_filter_matches * unit ≤ t * s.table_size)
      × (s.rel_filter_matches ≤ s.table_size))
    ⊎ ((s.table_size ≡ 0) × (unit ≤ t))
FilterFirst s (negsuc n) = (0 < s.table_size) × (s.rel_filter_matches ≡ 0)

-- For any statistics and any integer threshold, out of range ones included, choose_order answers
-- filter-first exactly when the table has rows, of which no more match than there are and no
-- larger a fraction than the threshold, a negative one counting as 0, or has no rows and the
-- threshold is at least 1; it answers vector-first exactly when this is not so.
pub choose_order_iff :
    (s : LegStats) (t : ℤ)
    → ((choose_order s t ≡ filter_first) ↔ FilterFirst s t)
      × ((choose_order s t ≡ vector_first) ↔ (¬ FilterFirst s t))
unfolding choose_order
choose_order_iff s (pos t) = elim (Bool-cases (s.table_size == 0)) [
  | inl empty ↦ (ground (arith, empty), ground (arith, empty))
  | inr rows ↦ (
    ground (arith, rows, product_min t s.table_size),
    ground (arith, rows, product_min t s.table_size),
  )
]
choose_order_iff s (negsuc n) = (ground arith, ground arith)

-- Thresholds beyond the ends act as the ends: a negative one as 0, one above 1 as 1; at 0 only a
-- filter without matches over a non-empty table goes first, and at 1 every filter goes first that
-- matches no more rows than the table has.
choose_order_ends :
    (s : LegStats) (n : ℕ)
    → ((choose_order s (negsuc n) ≡ filter_first)
        ↔ ((s.rel_filter_matches ≡ 0) × (0 < s.table_size)))
      × (choose_order s (negsuc n) ≡ choose_order s (pos 0))
      × (choose_order s (pos (unit + n)) ≡ choose_order s (pos unit))
      × (s.rel_filter_matches ≤ s.table_size → choose_order s (pos (unit + n)) ≡ filter_first)
unfolding choose_order
choose_order_ends s n = (ground arith, ground arith, ground arith, ground arith)

choose_order-clamp :
    (s : LegStats) (t : ℤ) → choose_order s (pos (clamp_threshold t)) ≡ choose_order s t
unfolding choose_order
choose_order-clamp s t = ground arith

choose_order-known : (s : LegStats) (t : ℤ) → choose_order s t ≢ unknown
unfolding choose_order
choose_order-known s t = ground arith

-- The estimate that does not raise.
rows_for : LegStats → Order → ℕ
rows_for s filter_first = min s.rel_filter_matches s.vector_topk
rows_for s _ = s.vector_topk * 50

rows_for_lem :
    (s : LegStats) (o : Order)
    → o ≢ unknown
    → (estimated_intermediate_rows s o ≡ ok (rows_for s o))
      × (rows_for s o ≤ s.vector_topk * 50)
      × (o ≡ filter_first → rows_for s o ≤ s.rel_filter_matches)
unfolding estimated_intermediate_rows rows_for
rows_for_lem s filter_first h = (refl, omega arith, λ _. omega arith)
rows_for_lem s vector_first h = (refl, omega arith, λ e. cc)
rows_for_lem s unknown h = absurd (h refl)

-- `explain` never raises, for any statistics and any threshold; the order, the threshold of its
-- rationale and the row estimate agree with `choose_order` of the threshold as given; the estimate
-- is at most fifty times the top-k, and at most the matches when the filter goes first.
explain_consistent :
    (s : LegStats) (t : ℤ)
    → (e : Explanation) × (explain s t ≡ ok e)
      × (e.order ≡ choose_order s t)
      × (e.rationale_order ≡ e.order)
      × (e.rationale_threshold ≤ unit)
      × (estimated_intermediate_rows s e.order ≡ ok e.intermediate_rows)
      × (e.intermediate_rows ≤ s.vector_topk * 50)
      × (e.order ≡ filter_first → e.intermediate_rows ≤ s.rel_filter_matches)
unfolding explain
explain_consistent s t =
    let o = choose_order s t in
    let (runs, bound, filtered) = rows_for_lem s o (choose_order-known s t) in
    (
      record {
        order = o;
        selectivity = relational_selectivity s;
        intermediate_rows = rows_for s o;
        rationale_order = o;
        rationale_threshold = clamp_threshold t;
      },
      rw (choose_order-clamp, runs),
      refl,
      refl,
      omega arith,
      runs,
      bound,
      filtered,
    )
