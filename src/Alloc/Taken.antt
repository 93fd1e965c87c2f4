-- ===== src/Alloc/Taken.antt =====
-- What an allocation of src/famfs_alloc.c does to the bitmap and what it may put into the map: the
-- common part of the contiguous and the strided case.
use famfs.Prelude.{ℕ, ◌+◌, ◌%◌, ◌^◌, ◌≤◌, ◌<◌, ◌≡◌, ◌∙◌}
use famfs.Prelude.Lists.{length, All}
use famfs.Prelude.Masks.{bit_and-mask}
use famfs.Meta.{SimpleExtent, LogFmap, alloc_unit_2m}
use famfs.Bitmap.{mu_bitmap_test}
use famfs.Bitmap.Laws.{IsBytes}
use famfs.Alloc.Extent.{pages}
use famfs.Alloc.File.{LockedLog}
use famfs.Alloc.Build.Owners.{bit, owners, Fits}
use famfs.Alloc.Build.Extents.{fmap_extents}

-- The device and the bitmap are of the same sizes.
pub record SameSizes (lp lp' : LockedLog) : Type 0 where
  pub nbits : lp'.nbits ≡ lp.nbits
  pub unit : lp'.alloc_unit ≡ lp.alloc_unit
  pub devsize : lp'.devsize ≡ lp.devsize

-- Nothing was allocated.
pub record IsUntouched (lp lp' : LockedLog) : Type 0 where
  pub sizes : SameSizes lp lp'
  pub bytes : IsBytes lp'.bitmap
  pub bits : (x : ℕ) → mu_bitmap_test lp'.bitmap x ≡ mu_bitmap_test lp.bitmap x

-- The pages of the map were all free, belong to one of its extents only, and are the pages newly set.
pub record IsTaken (lp lp' : LockedLog) (fm : LogFmap) : Type 0 where
  pub sizes : SameSizes lp lp'
  pub bytes : IsBytes lp'.bitmap
  pub bits : (x : ℕ) → bit lp'.bitmap x ≡ bit lp.bitmap x + owners alloc_unit_2m (fmap_extents fm) x
  pub fit : All (Fits alloc_unit_2m) (fmap_extents fm)
  pub few : length (fmap_extents fm) ≤ 16

-- An extent that starts on a page of 2 MiB.
pub aligned-Fits :
    (e : SimpleExtent)
    → e.se_offset % alloc_unit_2m ≡ 0
    → pages alloc_unit_2m e.se_len < 2 ^ 31
    → Fits alloc_unit_2m e
aligned-Fits e h small = record {
  masked = bit_and-mask e.se_offset 21 ∙ h;
  whole = h;
  small = small;
}
