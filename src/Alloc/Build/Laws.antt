-- ===== src/Alloc/Build/Laws.antt =====
-- fsck's collision check: what the bitmap and the error count of `famfs_build_bitmap` mean.
use famfs.Prelude.{
  ℕ, ◌+◌, ◌-◌, ◌^◌, ◌≤◌, ◌<◌, ◌≡◌, ◌≢◌, ◌↔◌, true, not, ◌==◌, ltb, some, List, ◌∷◌, bit_and, u64,
  arith,
}
use famfs.Prelude.Lists.{length, All}
use famfs.Meta.{superblock_size, SimpleExtent, FamfsLog, Checksum, no_stats}
use famfs.Bitmap.{mu_bitmap_test}
use famfs.Bitmap.Laws.{IsBytes, test-zero}
use famfs.Alloc.Extent.{pages}
use famfs.Alloc.Extent.Laws.{set_extent_marks}
use famfs.Alloc.Build.{Build, put_sb_log_into_bitmap, famfs_build_bitmap}
use famfs.Alloc.Build.Owners.{owners, owners_cons, Fits}
use famfs.Alloc.Build.Extents.{log_extents, entries-Marked}

-- The space of the superblock and the log, which no log entry describes.
abbrev pub reserved : FamfsLog → SimpleExtent
reserved logp = record {
  se_devindex = 0;
  se_offset = 0;
  se_len = u64 (superblock_size + logp.log_len);
}

-- Every extent on the device: the reserved space and those of the log's entries.
abbrev pub all_extents : Checksum → FamfsLog → List SimpleExtent
all_extents sum logp = reserved logp ∷ log_extents sum logp.entries logp.next_index 0

zero-IsBytes : IsBytes (λ _. 0)
zero-IsBytes = record { in_byte = λ i. omega arith }

module _ (sum : Checksum) (logp : FamfsLog) (alloc_unit dev_size : ℕ) where
  -- What `build_bitmap_lem` states, and that the bitmap holds bytes.
  pub build_bitmap_full :
      alloc_unit ≢ 0
      → bit_and alloc_unit (alloc_unit - 1) ≡ 0
      → All (Fits alloc_unit) (all_extents sum logp)
      → length (all_extents sum logp) < 2 ^ 32
      → (b : Build) × (famfs_build_bitmap sum logp alloc_unit dev_size
          ≡ some (b, pages alloc_unit dev_size))
        × ((j : ℕ) → mu_bitmap_test b.bitmap j ≡ ltb 0 (owners alloc_unit (all_extents sum logp) j))
        × ((b.errors ≡ 0) ↔ ((j : ℕ) → owners alloc_unit (all_extents sum logp) j ≤ 1))
        × IsBytes b.bitmap
  unfolding famfs_build_bitmap put_sb_log_into_bitmap
  build_bitmap_full ne power fit few =
      let es = log_extents sum logp.entries logp.next_index 0 in
      let (s, ret, bytes, bits, errors, sum_) =
        set_extent_marks (λ _. 0) alloc_unit 0 (reserved logp).se_len 0 zero-IsBytes (omega arith)
          (fit.0.masked) in
      let start : Build = record {
        bitmap = s.bitmap;
        errors = 0;
        fsize_sum = 0;
        alloc_sum = s.alloc_sum;
        ls = no_stats;
      } in
      let m =
        entries-Marked alloc_unit sum logp.entries logp.next_index 0 start fit.1
          (record { bytes = bytes; sum = omega (arith, sum_); errors = omega arith }) in
      let a1 : not (alloc_unit == 0) ≡ true = ground arith in
      let a2 : (bit_and alloc_unit (alloc_unit - 1) == 0) ≡ true = ground arith in
      (
        m.out,
        rw (a1, a2, ret, m.returns),
        λ j.
            ground
              (arith, m.bits j, bits j, test-zero j, owners_cons alloc_unit (reserved logp) es j),
        (
          λ e j. ground (
            arith,
            m.clean→ e j,
            bits j,
            test-zero j,
            owners_cons alloc_unit (reserved logp) es j,
          ),
          λ h. m.clean← (λ j.
              ground
                (arith, h j, bits j, test-zero j, owners_cons alloc_unit (reserved logp) es j)),
        ),
        m.bytes,
      )

  -- With an allocation unit that is a power of two, extents that start on pages and have fewer than
  -- 2 ^ 31 pages, and fewer than 2 ^ 32 of them, `famfs_build_bitmap` returns: a bitmap with a bit
  -- for each page of the device, in which a bit is set exactly if the superblock, the log or an
  -- extent of a valid log entry owns its page; and it counts no error exactly if no page has two
  -- owners.
  pub build_bitmap_lem :
      alloc_unit ≢ 0
      → bit_and alloc_unit (alloc_unit - 1) ≡ 0
      → All (Fits alloc_unit) (all_extents sum logp)
      → length (all_extents sum logp) < 2 ^ 32
      → (b : Build) × (famfs_build_bitmap sum logp alloc_unit dev_size
          ≡ some (b, pages alloc_unit dev_size))
        × ((j : ℕ) → mu_bitmap_test b.bitmap j ≡ ltb 0 (owners alloc_unit (all_extents sum logp) j))
        × ((b.errors ≡ 0) ↔ ((j : ℕ) → owners alloc_unit (all_extents sum logp) j ≤ 1))
  build_bitmap_lem ne power fit few =
      let (b, run, bits, errors, bytes) = build_bitmap_full ne power fit few in
      (b, run, bits, errors)
