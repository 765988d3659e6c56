-- ===== src/Extent/Laws.antt =====
-- What the layouts and costs of tools/csr_extent_packing.py guarantee.
use tridb.Base.{ℕ, suc, ◌+◌, ◌-◌, ◌*◌, ◌≤◌, ◌<◌, ◌≡◌, refl, ◌↔◌, true, Option, arith, leb}
use tridb.Base.Int.{ℤ, pos, negsuc, floor_zero, leb_ℤ}
use tridb.Base.Ratio.{Ratio, ratio}
use tridb.Base.Result.{ok, raised, value_error}
use tridb.Extent.{
  blcksz, slots_per_page, ExtentLayout, pack_checked, pack_extent, layout,
  sorted_insert_shift_slots, or_page, merge_cost_slots, amortized_shift_per_insert,
}

-- A layout accounts for its edges: the run and the tail partition them, the tail stays under its
-- cap, and the pages hold all slots with no page to spare.
pub record IsPacked (cap threshold : ℕ) (e : ExtentLayout) : Type 0 where
  pub parts : e.sorted_run + e.delta_tail ≡ e.degree
  pub tail : e.delta_tail ≤ cap
  pub run : e.degree ≤ cap → e.sorted_run ≡ 0
  pub room : e.degree ≤ e.pages * slots_per_page
  pub tight : e.pages * slots_per_page < e.degree + slots_per_page
  pub hub : (e.is_hub ≡ true) ↔ (threshold ≤ e.degree)
  pub logged : e.wal_full_image_bytes ≤ e.pages * blcksz

layout-IsPacked : (d cap hub : ℕ) → IsPacked cap hub (layout d cap hub)
layout-IsPacked d cap hub = record {
  parts = omega arith;
  tail = omega arith;
  run = λ h. omega arith;
  room = ground arith;
  tight = ground arith;
  hub = ground arith;
  logged = ground arith;
}

-- The number that a checked argument holds.
abbrev pub value : ℤ → ℕ
value n = floor_zero n

abbrev pub Accepts : ℤ → ℤ → ℤ → Type 0
Accepts degree cap hub =
    (leb_ℤ (pos 0) degree ≡ true) × (leb_ℤ (pos 0) cap ≡ true) × (leb_ℤ (pos 1) hub ≡ true)

pack_checked_returns :
    (d c h : ℤ)
    → Accepts d c h
    → (e : ExtentLayout) × (pack_checked d c h ≡ ok e)
      × (e.degree ≡ value d)
      × IsPacked (value c) (value h) e
unfolding pack_checked
pack_checked_returns (pos d) (pos c) (pos h) (_, _, a) =
    (layout d c h, ground arith, refl, layout-IsPacked d c h)
pack_checked_returns (negsuc d) c h a = cc
pack_checked_returns (pos d) (negsuc c) h a = cc
pack_checked_returns (pos d) (pos c) (negsuc h) a = cc

pack_checked-raised : (d c h : ℤ) → ¬ Accepts d c h → pack_checked d c h ≡ raised value_error
unfolding pack_checked
pack_checked-raised (pos d) (pos c) (pos h) a =
    ground (arith, λ (p : leb 1 h ≡ true). a (ground arith, ground arith, p))
pack_checked-raised (negsuc d) c h a = refl
pack_checked-raised (pos d) (negsuc c) h a = refl
pack_checked-raised (pos d) (pos c) (negsuc h) a = refl

-- When the degree and the cap are not negative and the hub threshold is at least 1 (a parameter
-- left out is one page of slots), a layout of that degree is returned: its run and tail partition
-- the edges, the tail is at most the cap and the run empty while the cap is not passed, the pages
-- hold all the slots and no page is to spare, and the vertex is a hub exactly from the threshold
-- on. Otherwise ValueError is raised.
pub pack_extent_total :
    (degree : ℤ) (cap hub : Option ℤ)
    → (Accepts degree (or_page cap) (or_page hub)
        → (e : ExtentLayout) × (pack_extent degree cap hub ≡ ok e)
          × (e.degree ≡ value degree)
          × IsPacked (value (or_page cap)) (value (or_page hub)) e)
      × (¬ Accepts degree (or_page cap) (or_page hub)
          → pack_extent degree cap hub ≡ raised value_error)
unfolding pack_extent
pack_extent_total degree cap hub = (
  pack_checked_returns degree (or_page cap) (or_page hub),
  pack_checked-raised degree (or_page cap) (or_page hub),
)

-- The amortised cost times the inserts of a cycle is the cost of the merge that ends it, and it is
-- never below one slot for each insert; a cap below 1 raises.
amortized-merge :
    (cap run : ℕ)
    → ((r : Ratio) × (amortized_shift_per_insert (pos (suc cap)) (pos run) ≡ ok r)
        × (merge_cost_slots (pos run) (pos (suc cap)) ≡ ok r.num)
        × (r.den ≡ suc cap)
        × (r.den ≤ r.num))
      × (amortized_shift_per_insert (pos 0) (pos run) ≡ raised value_error)
unfolding amortized_shift_per_insert merge_cost_slots
amortized-merge cap run =
    ((ratio (run + suc cap) (suc cap), ground arith, refl, refl, omega arith), refl)

-- An insert moves the slots after its position: moving there and counting the slots before gives
-- the run back; outside the run ValueError is raised.
shift_total :
    (p n : ℕ)
    → (p ≤ n → (s : ℕ) × (sorted_insert_shift_slots (pos p) (pos n) ≡ ok s) × (p + s ≡ n))
      × (n < p → sorted_insert_shift_slots (pos p) (pos n) ≡ raised value_error)
unfolding sorted_insert_shift_slots
shift_total p n = (λ h. (n - p, ground arith, omega arith), λ h. ground arith)
