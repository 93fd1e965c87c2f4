-- ===== src/Alloc/File.antt =====
-- `famfs_file_alloc_contiguous` of src/famfs_alloc.c: space for a file from the locked log.
pub mod Laws
pub mod Sound
use famfs.Prelude.{
  ℕ, ◌+◌, ◌*◌, ◌/◌, Bool, true, false, not, ◌==◌, if◌then◌else◌, Option, none, some, ◌>>=◌, ◌>>◌,
  assert, is_negative, store,
}
use famfs.Meta.{Rc, ok, enomem, LogFmap, SimpleExtent, ext_simple, round_size_to_alloc_unit}
use famfs.Bitmap.{Bitmap}
use famfs.Alloc.Param.{InterleaveParam}
use famfs.Alloc.Contiguous.{Allocation, bitmap_alloc_contiguous}

-- The fields of `struct famfs_locked_log` that the allocator uses, once the bitmap is built.
pub record LockedLog : Type 0 where
  pub devsize : ℕ
  pub bitmap : Bitmap
  pub nbits : ℕ
  pub alloc_unit : ℕ
  pub cur_pos : ℕ
  pub interleave_param : InterleaveParam

-- `fmap->se[0] = …` on a zeroed map
unfoldable pub simple_fmap : SimpleExtent → LogFmap
simple_fmap e = record {
  fmap_ext_type = ext_simple;
  fmap_count = 1;
  words = store (store (store (λ _. 0) 0 e.se_devindex) 1 e.se_offset) 2 e.se_len;
}

pub famfs_alloc_contiguous : LockedLog → ℕ → ℕ → LockedLog × ℕ
famfs_alloc_contiguous lp size range_size =
    let a = bitmap_alloc_contiguous lp.bitmap lp.nbits lp.alloc_unit size lp.cur_pos range_size in
    (record lp { bitmap = a.bitmap; cur_pos = a.cur_pos }, a.offset)

-- `none`: the assertion that nothing is allocated at offset 0 failed. The map is the one that goes
-- through `fmap_out`.
unfoldable pub famfs_file_alloc_contiguous :
    LockedLog → ℕ → Option (LockedLog × Rc × Option LogFmap)
unfolding famfs_alloc_contiguous
famfs_file_alloc_contiguous lp size =
    let (lp', offset) = famfs_alloc_contiguous lp size 0 in
    if is_negative offset then some (lp', enomem, none) else (do
      assert (not (offset == 0))
      some (
        lp',
        ok,
        some (
            simple_fmap (record {
              se_devindex = 0;
              se_offset = offset;
              se_len = round_size_to_alloc_unit size;
            })),
      ))
