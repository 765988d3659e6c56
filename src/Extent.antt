-- ===== src/Extent.antt =====
-- tools/csr_extent_packing.py: the page layout of one vertex's adjacency list.
-- An argument that Python checks to be non-negative is an integer here; an amortised cost is an
-- exact fraction.
pub mod Laws
pub mod Tests
use tridb.Base.{ℕ, ◌+◌, ◌-◌, ◌/◌, ◌≡◌, Bool, Option, none, some, ltb, leb, if◌then◌else◌, min}
use tridb.Base.Int.{ℤ, pos, negsuc}
use tridb.Base.Ratio.{Ratio, ratio}
use tridb.Base.Result.{Result, ok, raised, value_error, ◌>>=◌}

abbrev pub blcksz : ℕ
blcksz = 32768

abbrev pub edge_slot_size : ℕ
edge_slot_size = 32

abbrev pub page_header_size : ℕ
page_header_size = 24

abbrev pub special_size : ℕ
special_size = 16

abbrev pub usable_bytes_per_page : ℕ
usable_bytes_per_page = blcksz - page_header_size - special_size

abbrev pub slots_per_page : ℕ
slots_per_page = usable_bytes_per_page / edge_slot_size

pub record ExtentLayout : Type 0 where
  pub degree : ℕ
  pub sorted_run : ℕ
  pub delta_tail : ℕ
  pub pages : ℕ
  pub slots : ℕ
  pub is_hub : Bool
  pub wal_full_image_bytes : ℕ

-- `if x < 0: raise ValueError`
abbrev pub non_negative : ℤ → Result ℕ
non_negative (pos n) = ok n
non_negative (negsuc n) = raised value_error

-- `if x < 1: raise ValueError`
abbrev pub positive : ℤ → Result ℕ
positive (pos n) = if ltb n 1 then raised value_error else ok n
positive (negsuc n) = raised value_error

-- A parameter left at `None` becomes one page of slots.
abbrev pub or_page : Option ℤ → ℤ
or_page none = pos slots_per_page
or_page (some n) = n

-- The layout after the three checks.
abbrev pub layout : ℕ → ℕ → ℕ → ExtentLayout
layout degree delta_tail_cap hub_threshold =
    let spp = slots_per_page in
    let delta_tail = min degree delta_tail_cap in
    record {
      degree = degree;
      sorted_run = degree - delta_tail;
      delta_tail = delta_tail;
      pages = if ltb 0 degree then (degree + spp - 1) / spp else 0;
      slots = spp;
      is_hub = leb hub_threshold degree;
      wal_full_image_bytes = if ltb 0 degree then blcksz else 0;
    }

-- The three checks, in the order of the code, and then the layout.
unfoldable pub pack_checked : ℤ → ℤ → ℤ → Result ExtentLayout
pack_checked degree delta_tail_cap hub_threshold = do
  d ← non_negative degree
  cap ← non_negative delta_tail_cap
  hub ← positive hub_threshold
  ok (layout d cap hub)

unfoldable pub pack_extent : ℤ → Option ℤ → Option ℤ → Result ExtentLayout
pack_extent degree delta_tail_cap hub_threshold =
    pack_checked degree (or_page delta_tail_cap) (or_page hub_threshold)

unfoldable pub sorted_insert_shift_slots : ℤ → ℤ → Result ℕ
sorted_insert_shift_slots (pos position) (pos run_len) =
    if leb position run_len then ok (run_len - position) else raised value_error
sorted_insert_shift_slots _ _ = raised value_error

unfoldable pub merge_cost_slots : ℤ → ℤ → Result ℕ
merge_cost_slots sorted_run delta_tail = do
  run ← non_negative sorted_run
  delta ← non_negative delta_tail
  ok (run + delta)

unfoldable pub amortized_shift_per_insert : ℤ → ℤ → Result Ratio
amortized_shift_per_insert delta_tail_cap sorted_run = do
  cap ← positive delta_tail_cap
  run ← non_negative sorted_run
  ok (ratio (run + cap) cap)
