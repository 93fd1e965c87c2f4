-- ===== src/Tests/Space.antt =====
-- The bitmap loops of src/famfs_alloc.c at small inputs, with pages of 4 bytes.
use native.Mathlib.Decide.{ℕ_discrete}
use famfs.Prelude.{
  ℕ, zero, suc, ◌+◌, ◌*◌, ◌^◌, ◌≤◌, ◌<◌, ◌≡◌, ◌⊎◌, ◌↔◌, refl, true, false, ◌||◌, some, arith, u64,
  minus_one, ◌==◌, if◌then◌else◌,
}
use famfs.Bitmap.{Bitmap, mu_bitmap_test}
use famfs.Bitmap.Laws.{IsBytes, test-zero}
use famfs.Alloc.Extent.{Marks, set_extent_in_bitmap}
use famfs.Alloc.Extent.Laws.{in_range, count_set, count_clear, set_extent_marks}
use famfs.Alloc.Contiguous.{Allocation, bitmap_alloc_contiguous, bitmap_free_contiguous}
use famfs.Alloc.Contiguous.Scan.{IsFree}
use famfs.Alloc.Contiguous.Laws.{Allocated, alloc_outcome, alloc_complete, alloc_escapes}
use famfs.Alloc.Contiguous.Free.{free-alloc}
use famfs.Alloc.Stats.{mu_bitmap_range_stats}
use famfs.Alloc.Stats.Laws.{range_stats_lem}
use famfs.Alloc.Param.{InterleaveParam, errs, famfs_validate_interleave_param, alloc_is_interleaved}
use famfs.Alloc.Param.Laws.{IsStriped, validate_param_iff}

-- Bits 0 to 4 and 7 are set.
abbrev used : Bitmap
used i = if i == 0 then 0b1001_1111 else 0

used-IsBytes : IsBytes used
used-IsBytes = record { in_byte = λ i. ground arith }

used_low : (j : ℕ) → j ≤ 4 → mu_bitmap_test used j ≡ true
unfolding mu_bitmap_test
used_low zero h = refl
used_low (suc zero) h = refl
used_low (suc (suc zero)) h = refl
used_low (suc (suc (suc zero))) h = refl
used_low (suc (suc (suc (suc zero)))) h = refl
used_low (suc (suc (suc (suc (suc j))))) h = absurd (omega arith)

used-IsFree : IsFree used 5 2
unfolding mu_bitmap_test
used-IsFree = record {
  clear = λ j lo hi. elim (ℕ_discrete j 5) [
    | yes e ↦ rw e refl
    | no ne ↦ let e : j ≡ 6 = omega arith in rw e refl
  ];
}

empty-IsFree : (k n : ℕ) → IsFree (λ _. 0) k n
empty-IsFree k n = record { clear = λ j lo hi. test-zero j }

zero-IsBytes : IsBytes (λ _. 0)
zero-IsBytes = record { in_byte = λ i. omega arith }

set_extent_marks_example :
    (s : Marks) × (set_extent_in_bitmap used 4 16 6 0 ≡ some s)
    × IsBytes s.bitmap
    × ((j : ℕ) → mu_bitmap_test s.bitmap j ≡ (in_range 4 2 j || mu_bitmap_test used j))
    × (s.errors ≡ count_set used 4 2)
    × (s.alloc_sum ≡ u64 (0 + 4 * count_clear used 4 2))
set_extent_marks_example = set_extent_marks used 4 16 6 0 used-IsBytes (omega arith) refl

alloc_outcome_example :
    (bitmap_alloc_contiguous used 16 4 7 8 0
      ≡ record { offset = minus_one; bitmap = used; cur_pos = 8 })
    ⊎ ((i : ℕ) × (2 ≤ i)
        × (i < 16)
        × Allocated used 4 2 i (bitmap_alloc_contiguous used 16 4 7 8 0)
        × ((k : ℕ) → 2 ≤ k → k < i → ¬ IsFree used k 2))
alloc_outcome_example = alloc_outcome used 16 4 7 8 0 used-IsBytes (omega arith) (omega arith)

alloc_complete_example :
    (i : ℕ) × (2 ≤ i) × (i ≤ 5) × Allocated used 4 2 i (bitmap_alloc_contiguous used 16 4 7 8 0)
alloc_complete_example =
    alloc_complete used 16 4 7 8 0 used-IsBytes 5 (omega arith) (omega arith) (omega arith)
      (omega arith) (omega arith) (omega arith) used-IsFree

-- The range is bits 0 to 3, and bits 5 and 6 are allocated.
alloc_escapes_example : Allocated used 4 2 5 (bitmap_alloc_contiguous used 16 4 8 0 16)
alloc_escapes_example =
    alloc_escapes used 16 4 8 0 16 used-IsBytes (omega arith) (omega arith) (omega arith)
      (λ j lo hi. used_low j (omega arith)) used-IsFree

abbrev taken : Allocation
taken = bitmap_alloc_contiguous used 16 4 8 0 16

free-alloc_example :
    (m' : Bitmap) × (bitmap_free_contiguous taken.bitmap 16 4 taken.offset 8 ≡ some m')
    × ((j : ℕ) → mu_bitmap_test m' j ≡ mu_bitmap_test used j)
free-alloc_example =
    free-alloc used 16 4 8 5 taken (omega arith)
      (alloc_escapes used 16 4 8 0 16 used-IsBytes (omega arith) (omega arith) (omega arith)
        (λ j lo hi. used_low j (omega arith)) used-IsFree)
      (omega arith) (omega arith)

range_stats_lem_example :
    let bs = mu_bitmap_range_stats used 2 8 in
    (bs.bits_free ≡ count_clear used 2 6)
    × (bs.bits_inuse ≡ 2 * count_set used 2 6)
    × (bs.smallest_free_section ≡ 0)
    × (bs.largest_free_section ≡ count_clear used 2 6)
range_stats_lem_example = range_stats_lem used 2 8 (omega arith)

abbrev dice : ℕ → ℕ
dice i = i * 7 + 3

abbrev striped : InterleaveParam
striped = record { nbuckets = 8; nstrips = 6; chunk_size = 0x200000 }

validate_param_iff_example :
    (famfs_validate_interleave_param false striped 0x200000 (2 ^ 34) ≡ some (errs 0))
    ↔ ((alloc_is_interleaved striped ≡ false) ⊎ IsStriped false striped 0x200000 (2 ^ 34))
validate_param_iff_example = validate_param_iff false striped 0x200000 (2 ^ 34) (omega arith)
