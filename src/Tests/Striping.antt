-- ===== src/Tests/Striping.antt =====
-- A striped file on a device of 32 GiB with 8 buckets.
use famfs.Prelude.{
  ℕ, ◌+◌, ◌*◌, ◌^◌, ◌≡◌, ◌⊎◌, inl, refl, true, false, none, some, arith, ◌==◌, if◌then◌else◌,
}
use famfs.Meta.{ok, enomem, LogFmap}
use famfs.Bitmap.{Bitmap, mu_bitmap_test}
use famfs.Bitmap.Laws.{IsBytes}
use famfs.Alloc.Param.{InterleaveParam}
use famfs.Alloc.Param.Laws.{IsStriped}
use famfs.Alloc.File.{LockedLog}
use famfs.Alloc.Strided.{returned, famfs_file_strided_alloc}
use famfs.Alloc.Strided.Laws.{IsPlaceable, IsPlaced, strided_alloc_outcome}

abbrev six_strips : InterleaveParam
six_strips = record { nbuckets = 8; nstrips = 6; chunk_size = 0x200000 }

-- The superblock, the log and the last page are in use.
abbrev formatted : Bitmap
formatted i = if i == 0 then 0b1_1111 else if i == 2047 then 0b1000_0000 else 0

formatted-IsBytes : IsBytes formatted
formatted-IsBytes = record { in_byte = λ i. ground arith }

last_taken : mu_bitmap_test formatted 16383 ≡ true
unfolding mu_bitmap_test
last_taken = refl

abbrev wide_fs : LockedLog
wide_fs = record {
  devsize = 2 ^ 35;
  bitmap = formatted;
  nbits = 16384;
  alloc_unit = 0x200000;
  cur_pos = 0;
  interleave_param = six_strips;
}

abbrev dice : ℕ → ℕ
dice i = i * 5 + 1

wide_fs-IsStriped : IsStriped false six_strips 0x200000 (2 ^ 35)
wide_fs-IsStriped = record {
  chunk = omega arith;
  power = refl;
  whole = refl;
  strips = omega arith;
  some_bucket = omega arith;
  few_buckets = omega arith;
  large = inl (omega arith);
}

wide_fs-IsPlaceable : IsPlaceable wide_fs 30_000_000
unfolding mu_bitmap_test
wide_fs-IsPlaceable = record {
  modest = record {
    unit = omega arith;
    unit_word = omega arith;
    some_strips = omega arith;
    few_strips = omega arith;
    some_chunk = omega arith;
    whole_chunk = refl;
    chunked = omega arith;
    size_word = omega arith;
    strip_int = omega arith;
  };
  bytes = formatted-IsBytes;
  superblock = refl;
  fits = omega arith;
  device = omega arith;
  few_buckets = omega arith;
  devsize_word = omega arith;
  some_device = omega arith;
}

strided_alloc_outcome_example :
    (lp' : LockedLog) × ((famfs_file_strided_alloc false dice wide_fs 30_000_000
          ≡ some (lp', returned enomem none))
        × ((x : ℕ) → mu_bitmap_test lp'.bitmap x ≡ mu_bitmap_test formatted x)
      ⊎ ((fm : LogFmap) × (famfs_file_strided_alloc false dice wide_fs 30_000_000
            ≡ some (lp', returned ok (some fm)))
          × IsPlaced wide_fs lp' 30_000_000 fm))
strided_alloc_outcome_example =
    strided_alloc_outcome false dice wide_fs 30_000_000 wide_fs-IsStriped wide_fs-IsPlaceable
      last_taken
