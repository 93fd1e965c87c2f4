-- ===== src/Alloc/Choice.antt =====
-- `famfs_file_alloc` of src/famfs_alloc.c: builds the bitmap on the first call, and chooses between the
-- two allocators.
pub mod Laws
use famfs.Prelude.{ℕ, Bool, true, false, ◌&&◌, not, leb, if◌then◌else◌, Option, none, some, ◌>>=◌}
use famfs.Meta.{failed, FamfsLog, Checksum}
use famfs.Alloc.Param.{alloc_is_interleaved}
use famfs.Alloc.Build.{famfs_build_bitmap}
use famfs.Alloc.File.{LockedLog, famfs_file_alloc_contiguous}
use famfs.Alloc.Strided.{StridedResult, returned, famfs_file_strided_alloc}

-- FAMFS_KABI_VERSION
abbrev kabi_version : ℕ
kabi_version = 43

-- The bitmap, unless `lp->bitmap` is set.
unfoldable pub ensure_bitmap : Checksum → FamfsLog → Bool → LockedLog → Option LockedLog
ensure_bitmap sum logp true lp = some lp
ensure_bitmap sum logp false lp = do
  (b, nbits) ← famfs_build_bitmap sum logp lp.alloc_unit lp.devsize
  some (record lp { bitmap = b.bitmap; nbits = nbits; cur_pos = 0 })

unfoldable pub choose_alloc : Bool → (ℕ → ℕ) → LockedLog → ℕ → Option (LockedLog × StridedResult)
choose_alloc mock_stripe rand lp size =
    if leb kabi_version 42 && alloc_is_interleaved lp.interleave_param
    then some (lp, returned failed none)
    else if not (alloc_is_interleaved lp.interleave_param)
    then contiguous
    else famfs_file_strided_alloc mock_stripe rand lp size
  where
    contiguous : Option (LockedLog × StridedResult)
    contiguous = do
      (lp', rc, fmap) ← famfs_file_alloc_contiguous lp size
      some (lp', returned rc fmap)

-- `built` says that `lp->bitmap` is set.
unfoldable pub famfs_file_alloc :
    Checksum → Bool → (ℕ → ℕ) → FamfsLog → Bool → LockedLog → ℕ → Option (LockedLog × StridedResult)
famfs_file_alloc sum mock_stripe rand logp built lp size = do
  lp' ← ensure_bitmap sum logp built lp
  choose_alloc mock_stripe rand lp' size
