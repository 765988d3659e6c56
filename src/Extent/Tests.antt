-- ===== src/Extent/Tests.antt =====
-- The theorems on tools/csr_extent_packing.py at concrete inputs.
use tridb.Base.{◌≡◌, none}
use tridb.Base.Int.{pos}
use tridb.Base.Result.{ok, raised, value_error}
use tridb.Extent.{ExtentLayout, or_page, pack_extent}
use tridb.Extent.Laws.{IsPacked, Accepts, value, pack_extent_total}

pack_extent_total_example :
    (Accepts (pos 2500) (or_page none) (or_page none)
      → (e : ExtentLayout) × (pack_extent (pos 2500) none none ≡ ok e)
        × (e.degree ≡ 2500)
        × IsPacked (value (or_page none)) (value (or_page none)) e)
    × (¬ Accepts (pos 2500) (or_page none) (or_page none)
        → pack_extent (pos 2500) none none ≡ raised value_error)
pack_extent_total_example = pack_extent_total (pos 2500) none none
