-- ===== src/Alloc/Contiguous.antt =====
-- `bitmap_alloc_contiguous` and `bitmap_free_contiguous` of src/famfs_alloc.c: first fit over the
-- bitmap. An `s64` result is its bit pattern, -1 for a failure. The bitmap of the model has no end: the
-- bits behind the first `nbits` are those behind the array, which the inner loops can read and set.
pub mod Scan
pub mod Laws
pub mod Free
use famfs.Prelude.{
  ℕ, zero, suc, ◌+◌, ◌-◌, ◌*◌, ◌/◌, ◌%◌, Bool, true, false, ◌&&◌, not, ◌==◌, ltb, leb,
  if◌then◌else◌, Option, none, some, u32, u64, sub64, minus_one,
}
use famfs.Bitmap.{Bitmap, mu_bitmap_test, mu_bitmap_test_and_clear, mse_bitmap_set32}
use famfs.Alloc.Extent.{pages}

-- The loop that looks for a set bit among the `n` from `j` on: `false` is its `goto next`.
unfoldable pub range_free : Bitmap → ℕ → ℕ → Bool
range_free bitmap zero j = true
range_free bitmap (suc n) j = if mu_bitmap_test bitmap j then false else range_free bitmap n (j + 1)

-- The loop that sets them; the index of `mse_bitmap_set32` is a `u32`.
pub set_range : Bitmap → ℕ → ℕ → Bitmap
set_range bitmap zero j = bitmap
set_range bitmap (suc n) j = set_range (mse_bitmap_set32 bitmap (u32 j)) n (j + 1)

-- The outer loop over i, with `left` bits to the end of the bitmap: where it allocates, or `none`
-- for its `return -1`.
unfoldable pub scan : Bitmap → ℕ → ℕ → ℕ → ℕ → ℕ → Option ℕ
scan bitmap start_idx range_size_nbits alloc_bits zero i = none
scan bitmap start_idx range_size_nbits alloc_bits (suc left) i =
    let rest = scan bitmap start_idx range_size_nbits alloc_bits left (i + 1) in
    if mu_bitmap_test bitmap i
    then rest
    else if ltb (sub64 (u64 (start_idx + range_size_nbits)) i) alloc_bits
    then none
    else if range_free bitmap alloc_bits i
    then some i
    else rest

-- The offset that is returned, the bitmap and `*cur_pos`.
pub record Allocation : Type 0 where
  pub offset : ℕ
  pub bitmap : Bitmap
  pub cur_pos : ℕ

abbrev pub range_bits : ℕ → ℕ → ℕ → ℕ
range_bits nbits alloc_unit range_size =
    if range_size == 0 then nbits else pages alloc_unit range_size

unfoldable pub bitmap_alloc_contiguous : Bitmap → ℕ → ℕ → ℕ → ℕ → ℕ → Allocation
bitmap_alloc_contiguous bitmap nbits alloc_unit alloc_size cur_pos range_size =
    let alloc_bits = pages alloc_unit alloc_size in
    let start_idx = cur_pos / alloc_unit in
    elim (scan bitmap start_idx (range_bits nbits alloc_unit range_size) alloc_bits
      (nbits - start_idx) start_idx) [
        | none ↦ record { offset = minus_one; bitmap = bitmap; cur_pos = cur_pos }
        | some i ↦ record {
          offset = u64 (i * alloc_unit);
          bitmap = set_range bitmap alloc_bits i;
          cur_pos = u64 ((i + alloc_bits) * alloc_unit);
        }
      ]

-- The loop of `bitmap_free_contiguous`; `none`: a bit was clear already.
pub clear_range : Bitmap → ℕ → ℕ → Option Bitmap
clear_range bitmap zero i = some bitmap
clear_range bitmap (suc n) i =
    let (bitmap', was_set) = mu_bitmap_test_and_clear bitmap i in
    let rest = clear_range bitmap' n (i + 1) in if was_set then rest else none

-- `none`: one of its assertions failed.
pub bitmap_free_contiguous : Bitmap → ℕ → ℕ → ℕ → ℕ → Option Bitmap
bitmap_free_contiguous bitmap nbits alloc_unit offset len =
    let start_bitnum = offset / alloc_unit in
    let nbits_free = pages alloc_unit len in
    if not (leb (start_bitnum + nbits_free) nbits)
    then none
    else if not (offset % alloc_unit == 0)
    then none
    else clear_range bitmap nbits_free start_bitnum
