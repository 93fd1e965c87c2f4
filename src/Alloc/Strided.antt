-- ===== src/Alloc/Strided.antt =====
-- `famfs_file_strided_alloc` of src/famfs_alloc.c: strips of a file in different buckets of the device.
pub mod Held
pub mod Fmap
pub mod Loops
pub mod Sizes
pub mod Laws
pub mod Sound
pub mod Calls
use famfs.Prelude.{
  ℕ, zero, suc, ◌+◌, ◌-◌, ◌*◌, ◌/◌, ◌%◌, Bool, true, false, ◌&&◌, not, ◌==◌, ltb, leb,
  if◌then◌else◌, Option, none, some, ◌>>=◌, ◌>>◌, assert, is_positive, store, u64, through_int,
}
use famfs.Meta.{Rc, ok, enomem, SimpleExtent, LogFmap, ext_interleave, max_simple_extents}
use famfs.Bitmap.{Bitmap}
use famfs.Alloc.Extent.{pages}
use famfs.Alloc.Param.{ParamCheck, errs, einval, famfs_validate_interleave_param}
use famfs.Alloc.Buckets.{BucketSeries, bucket_series_alloc, bucket_series_next}
use famfs.Alloc.Contiguous.{Allocation, bitmap_alloc_contiguous, bitmap_free_contiguous}
use famfs.Alloc.File.{LockedLog, famfs_file_alloc_contiguous}

-- The bitmap, the array `fmap->ie[0].ie_strips` and `nstrips_allocated`.
pub record Strips : Type 0 where
  pub bitmap : Bitmap
  pub strips : ℕ → SimpleExtent
  pub nstrips_allocated : ℕ

abbrev pub no_extent : SimpleExtent
no_extent = record { se_devindex = 0; se_offset = 0; se_len = 0 }

-- What is returned: the errors of the parameters, or a status and the map that goes through
-- `fmap_out`.
pub data StridedResult : Type 0 where
  refused : ParamCheck → StridedResult
  returned : Rc → Option LogFmap → StridedResult

module _ (nbits alloc_unit strip_len : ℕ) where
  -- What the loop does with the offset that it got. `none`: outside of the array.
  pub put_strip : Strips → Allocation → Option Strips
  put_strip s a =
      if is_positive a.offset
      then (do
        assert (ltb s.nstrips_allocated max_simple_extents)
        some (record {
          bitmap = a.bitmap;
          strips =
              store s.strips s.nstrips_allocated
                (record { se_devindex = 0; se_offset = a.offset; se_len = strip_len });
          nstrips_allocated = s.nstrips_allocated + 1;
        }))
      else some (record s { bitmap = a.bitmap })

  -- The loop over the buckets, with `left` rounds to go.
  pub take_strips : ℕ → ℕ → ℕ → BucketSeries → Strips → Option Strips
  take_strips bucket_size_au nstrips zero bs s = some s
  take_strips bucket_size_au nstrips (suc left) bs s =
      let (bs', bucket_num) = bucket_series_next bs in
      let pos = u64 (u64 (through_int bucket_num * bucket_size_au) * alloc_unit) in
      let a =
        bitmap_alloc_contiguous s.bitmap nbits alloc_unit strip_len pos
          (u64 (bucket_size_au * alloc_unit)) in
      do
        s' ← put_strip s a
        if is_positive a.offset && leb nstrips s'.nstrips_allocated
            then some s'
            else take_strips bucket_size_au nstrips left bs' s'

module _ (nbits alloc_unit : ℕ) where
  -- The loop that frees what a failed allocation has taken, with `left` strips from j on. `none`: an
  -- assertion failed, or j is outside of the array.
  pub free_strips : (ℕ → SimpleExtent) → ℕ → ℕ → Bitmap → Option Bitmap
  free_strips strips zero j bitmap = some bitmap
  free_strips strips (suc left) j bitmap = do
    assert (ltb j max_simple_extents)
    bitmap' ← bitmap_free_contiguous bitmap nbits alloc_unit (strips j).se_offset (strips j).se_len
    free_strips strips left (j + 1) bitmap'

-- The words of one interleaved extent: its count, its chunk size, its strips.
pub strided_fmap : ℕ → ℕ → (ℕ → SimpleExtent) → LogFmap
strided_fmap nstrips chunk_size strips = record {
  fmap_ext_type = ext_interleave;
  fmap_count = 1;
  words = λ w.
      if w == 0
      then nstrips
      else if w == 1
      then chunk_size
      else (let e = strips ((w - 2) / 3) in
          if (w - 2) % 3 == 0
          then e.se_devindex
          else if (w - 2) % 3 == 1
          then e.se_offset
          else e.se_len);
}

-- The size of a strip in allocation units; `nstripes` is an `int`. `none`: a division by zero.
pub strip_units : LockedLog → ℕ → Option ℕ
strip_units lp size =
    let p = lp.interleave_param in
    let chunk_size_au = p.chunk_size / lp.alloc_unit in
    let stripe_size_au = u64 (p.nstrips * chunk_size_au) in
    do
      assert (not (p.nstrips == 0))
      assert (stripe_size_au % p.nstrips == 0)
      assert (not (stripe_size_au == 0))
      some (
          u64 (
            through_int (u64 (pages lp.alloc_unit size + stripe_size_au - 1) / stripe_size_au)
            * chunk_size_au))

-- From the allocation of the map on. `rand` gives the numbers for the shuffle of the buckets.
pub allocate_strips : (ℕ → ℕ) → LockedLog → ℕ → Option (LockedLog × StridedResult)
allocate_strips rand lp strip_size_au =
    let p = lp.interleave_param in
    let bucket_size_au = lp.devsize / lp.alloc_unit / p.nbuckets in
    let strip_len = u64 (strip_size_au * lp.alloc_unit) in
    do
      s ←
          take_strips lp.nbits lp.alloc_unit strip_len bucket_size_au p.nstrips p.nbuckets
            (bucket_series_alloc rand p.nbuckets 0)
            (record { bitmap = lp.bitmap; strips = λ _. no_extent; nstrips_allocated = 0 })
      let freed = free_strips lp.nbits lp.alloc_unit s.strips p.nbuckets 0 s.bitmap in
          if ltb s.nstrips_allocated p.nstrips
          then (do bitmap ← freed; some (record lp { bitmap = bitmap }, returned enomem none))
          else some (
            record lp { bitmap = s.bitmap },
            returned ok (some (strided_fmap p.nstrips p.chunk_size s.strips)),
          )

pub is_valid_param : ParamCheck → Bool
is_valid_param (errs n) = n == 0
is_valid_param einval = false

-- `none` is a failed assertion, a division by zero, or an index outside of the array of strips.
pub famfs_file_strided_alloc : Bool → (ℕ → ℕ) → LockedLog → ℕ → Option (LockedLog × StridedResult)
famfs_file_strided_alloc mock_stripe rand lp size =
    let p = lp.interleave_param in
    do
      check ← famfs_validate_interleave_param mock_stripe p lp.alloc_unit lp.devsize
      if not (is_valid_param check) then some (lp, refused check) else (do
        assert (leb p.nstrips p.nbuckets)
        if ltb size p.chunk_size then contiguous else (do
          strip_size_au ← strip_units lp size
          assert (
              leb (u64 (u64 (lp.devsize / lp.alloc_unit / p.nbuckets * lp.alloc_unit) * p.nbuckets))
                lp.devsize)
          allocate_strips rand lp strip_size_au))
  where
    contiguous : Option (LockedLog × StridedResult)
    contiguous = do
      (lp', rc, fmap) ← famfs_file_alloc_contiguous (record lp { cur_pos = 0 }) size
      some (lp', returned rc fmap)
