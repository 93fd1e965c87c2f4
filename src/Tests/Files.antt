-- ===== src/Tests/Files.antt =====
-- Space for files, and the bitmap of a log with two files, at small inputs.
use famfs.Prelude.{
  ℕ, ◌+◌, ◌*◌, ◌/◌, ◌^◌, ◌≤◌, ◌<◌, ◌≡◌, ◌⊎◌, ◌↔◌, refl, none, some, arith, ltb, [], ◌==◌,
  if◌then◌else◌, ◌∷◌, u64,
}
use famfs.Prelude.Lists.{length, All}
use famfs.Tests.Samples.{sums}
use famfs.Meta.{
  ok, enomem, LogFmap, LogEntry, LogPayload, file, FamfsLog, log_magic, round_size_to_alloc_unit,
}
use famfs.Log.{famfs_gen_log_entry_crc, entry_errors, famfs_validate_log_entry}
use famfs.Alloc.Contiguous.Scan.{IsFree}
use famfs.Alloc.Contiguous.Laws.{alloc_complete}
use famfs.Alloc.Build.Extents.{log_extents, payload_extents, fmap_extents, simple_extents}
use famfs.Meta.Fmap.{se}
use famfs.Bitmap.{Bitmap, mu_bitmap_test}
use famfs.Bitmap.Laws.{IsBytes}
use famfs.Alloc.Extent.{pages}
use famfs.Alloc.Param.{InterleaveParam}
use famfs.Alloc.File.{LockedLog, simple_fmap, famfs_file_alloc_contiguous}
use famfs.Alloc.File.Laws.{
  IsReady, IsReady4k, Took, extent_for, alloc, after, succeeds, file_alloc_outcome,
  file_alloc_4k_overlaps,
}
use famfs.Alloc.Build.{Build, famfs_build_bitmap}
use famfs.Alloc.Build.Owners.{owners, Fits}
use famfs.Alloc.Build.Laws.{all_extents, build_bitmap_lem}

abbrev flat : InterleaveParam
flat = record { nbuckets = 0; nstrips = 0; chunk_size = 0 }

-- The superblock and the log are in use.
abbrev formatted : Bitmap
formatted i = if i == 0 then 0b1_1111 else 0

abbrev fresh_fs : LockedLog
fresh_fs = record {
  devsize = 2 ^ 32;
  bitmap = formatted;
  nbits = 2048;
  alloc_unit = 0x200000;
  cur_pos = 0;
  interleave_param = flat;
}

fresh_fs-IsReady : IsReady fresh_fs 2
unfolding mu_bitmap_test
fresh_fs-IsReady = record {
  unit = refl;
  bytes = record { in_byte = λ i. ground arith };
  superblock = refl;
  fits = omega arith;
}

file_alloc_outcome_example :
    (lp' : LockedLog) × ((famfs_file_alloc_contiguous fresh_fs 3_000_000 ≡ some (lp', enomem, none))
        × (lp'.bitmap ≡ formatted)
      ⊎ ((i : ℕ) × (famfs_file_alloc_contiguous fresh_fs 3_000_000
            ≡ some (lp', ok, some (simple_fmap (extent_for 3_000_000 i))))
          × (i < 2048)
          × Took fresh_fs lp' 3_000_000 i))
file_alloc_outcome_example =
    file_alloc_outcome fresh_fs 3_000_000 fresh_fs-IsReady (omega arith) (omega arith)

abbrev fresh_4k : LockedLog
fresh_4k = record fresh_fs { alloc_unit = 4096; cur_pos = 20480; nbits = 1_048_576 }

formatted-IsBytes : IsBytes formatted
formatted-IsBytes = record { in_byte = λ i. ground arith }

fifth-IsFree : IsFree formatted 5 1
unfolding mu_bitmap_test
fifth-IsFree = record { clear = λ j lo hi. (let e : j ≡ 5 = omega arith in rw e refl) }

after_4k : LockedLog
after_4k = after fresh_4k 4096

map_4k : LogFmap
map_4k = simple_fmap (record {
  se_devindex = 0;
  se_offset = (alloc fresh_4k 4096).offset;
  se_len = round_size_to_alloc_unit 4096;
})

alloc_4k : famfs_file_alloc_contiguous fresh_4k 4096 ≡ some (after_4k, ok, some map_4k)
unfolding after_4k map_4k
alloc_4k =
    let (i, lo, hi, a) =
      alloc_complete formatted 1_048_576 4096 4096 20480 0 formatted-IsBytes 5 (omega arith)
        (omega arith) (omega arith) (omega arith) (omega arith) (omega arith) fifth-IsFree in
    let at : (alloc fresh_4k 4096).offset ≡ u64 (i * 4096) = a.offset in
    succeeds fresh_4k 4096 (omega (arith, at, lo, hi)) (omega (arith, at, lo, hi))

fresh_4k-IsReady4k : IsReady4k fresh_4k (pages 4096 4096)
unfolding mu_bitmap_test
fresh_4k-IsReady4k = record {
  unit = refl;
  bytes = formatted-IsBytes;
  superblock = refl;
  fits = omega arith;
}

file_alloc_4k_overlaps_example :
    (pages 4096 4096 < pages 4096 (se map_4k 0).se_len)
    × ((j : ℕ)
        → (se map_4k 0).se_offset / 4096 + pages 4096 4096 ≤ j
        → j < (se map_4k 0).se_offset / 4096 + pages 4096 (se map_4k 0).se_len
        → mu_bitmap_test after_4k.bitmap j ≡ mu_bitmap_test formatted j)
file_alloc_4k_overlaps_example =
    file_alloc_4k_overlaps fresh_4k after_4k 4096 map_4k fresh_4k-IsReady4k (omega arith)
      (omega arith) alloc_4k

-- Two files of 4 MiB each that share a page, in a log of 8 MiB.
abbrev sealed : ℕ → ℕ → LogEntry
sealed seqnum offset =
    let payload : LogPayload = file (record {
      fm_size = 0x400000;
      fm_flags = 2;
      fm_uid = 0;
      fm_gid = 0;
      fm_mode = 0o644;
      fm_relpath = b'f' ∷ [];
      fm_fmap = simple_fmap (record { se_devindex = 0; se_offset = offset; se_len = 0x400000 });
    }) in
    let unsigned : LogEntry = record { seqnum = seqnum; payload = payload; crc = 0 } in
    record unsigned { crc = famfs_gen_log_entry_crc sums unsigned }

abbrev two_files : FamfsLog
two_files = record {
  magic = log_magic;
  log_len = 0x800000;
  last_index = 15418;
  header_crc = 0;
  next_seqnum = 2;
  next_index = 2;
  entries = λ i. if i == 0 then sealed 0 0xA00000 else sealed 1 0xC00000;
}

two_files_fit : All (Fits 0x200000) (all_extents sums two_files)
unfolding log_extents payload_extents fmap_extents simple_extents famfs_validate_log_entry
    entry_errors famfs_gen_log_entry_crc simple_fmap
two_files_fit = (
  record { masked = refl; whole = refl; small = omega arith },
  (
    record { masked = refl; whole = refl; small = omega arith },
    (record { masked = refl; whole = refl; small = omega arith }, tt),
  ),
)

two_files_few : length (all_extents sums two_files) < 2 ^ 32
unfolding log_extents payload_extents fmap_extents simple_extents famfs_validate_log_entry
    entry_errors famfs_gen_log_entry_crc simple_fmap
two_files_few = omega arith

build_bitmap_lem_example :
    (b : Build) × (famfs_build_bitmap sums two_files 0x200000 (2 ^ 32)
      ≡ some (b, pages 0x200000 (2 ^ 32)))
    × ((j : ℕ) → mu_bitmap_test b.bitmap j ≡ ltb 0 (owners 0x200000 (all_extents sums two_files) j))
    × ((b.errors ≡ 0) ↔ ((j : ℕ) → owners 0x200000 (all_extents sums two_files) j ≤ 1))
build_bitmap_lem_example =
    build_bitmap_lem sums two_files 0x200000 (2 ^ 32) (omega arith) refl two_files_fit two_files_few
