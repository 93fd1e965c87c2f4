-- ===== src/Alloc/Extent.antt =====
-- `set_extent_in_bitmap` of src/famfs_alloc.c: marks the pages of an extent and counts those that
-- were marked before.
pub mod Laws
use famfs.Prelude.{
  ℕ, zero, suc, ◌+◌, ◌-◌, ◌/◌, ◌%◌, ◌^◌, Bool, true, false, not, ◌==◌, ltb, if◌then◌else◌, Option,
  none, some, bit_and, u64,
}
use famfs.Bitmap.{Bitmap, mu_bitmap_test_and_set}

-- The variables that the loop changes. (Every caller passes a place for `alloc_sum`.)
pub record Marks : Type 0 where
  pub bitmap : Bitmap
  pub errors : ℕ
  pub alloc_sum : ℕ

-- The pages that `len` bytes take, rounded up.
abbrev pub pages : ℕ → ℕ → ℕ
pages alloc_unit len = u64 (len + alloc_unit - 1) / alloc_unit

unfoldable pub mark_page : ℕ → ℕ → Marks → Marks
mark_page alloc_unit k s =
    let (bitmap, fresh) = mu_bitmap_test_and_set s.bitmap k in
    if fresh
    then record { bitmap = bitmap; errors = s.errors; alloc_sum = u64 (s.alloc_sum + alloc_unit) }
    else record { bitmap = bitmap; errors = u64 (s.errors + 1); alloc_sum = s.alloc_sum }

-- The loop over `np` pages from page `k` on.
unfoldable pub mark_pages : ℕ → ℕ → ℕ → Marks → Marks
mark_pages alloc_unit zero k s = s
mark_pages alloc_unit (suc np) k s = mark_pages alloc_unit np (k + 1) (mark_page alloc_unit k s)

-- `none`: the assertion that the offset is a multiple of the allocation unit failed. The errors
-- that it returns are those of this call.
unfoldable pub set_extent_in_bitmap : Bitmap → ℕ → ℕ → ℕ → ℕ → Option Marks
set_extent_in_bitmap bitmap alloc_unit offset len alloc_sum =
    if not (bit_and offset (alloc_unit - 1) == 0)
    then none
    else some (
        mark_pages alloc_unit (pages alloc_unit len) (offset / alloc_unit)
          (record { bitmap = bitmap; errors = 0; alloc_sum = alloc_sum }))
