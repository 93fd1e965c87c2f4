-- ===== src/Alloc/Param.antt =====
-- `famfs_validate_interleave_param` of src/famfs_alloc.c.
pub mod Laws
use famfs.Prelude.{
  ℕ, ◌+◌, ◌/◌, ◌%◌, ◌*◌, Bool, true, false, ◌&&◌, not, ◌==◌, ltb, if◌then◌else◌, Option, none, some,
  bit_and, sub64,
}
use famfs.Meta.{max_nbuckets}

-- `struct famfs_interleave_param`
pub record InterleaveParam : Type 0 where
  pub nbuckets : ℕ
  pub nstrips : ℕ
  pub chunk_size : ℕ

-- The number of errors found, 0 for valid parameters, or -EINVAL.
pub data ParamCheck : Type 0 where
  errs : ℕ → ParamCheck
  einval : ParamCheck

-- `none`: the assertion that the device has a size failed. `mock_stripe` is the global that lets
-- tests use small buckets.
pub famfs_validate_interleave_param : Bool → InterleaveParam → ℕ → ℕ → Option ParamCheck
famfs_validate_interleave_param mock_stripe p alloc_unit devsize =
    if devsize == 0
    then none
    else if p.nbuckets == 0 && p.nstrips == 0 && p.chunk_size == 0
    then some (errs 0)
    else if not (bit_and p.chunk_size (sub64 p.chunk_size 1) == 0)
    then some einval
    else if not (p.chunk_size % alloc_unit == 0)
    then some einval
    else let bucket_size = if p.nbuckets == 0 then 0 else devsize / p.nbuckets in
      some (
        errs (
          (if p.chunk_size == 0 then 1 else 0)
          + (if ltb p.nbuckets p.nstrips then 1 else 0)
          + (if p.nbuckets == 0 then 1 else 0)
          + (if ltb max_nbuckets p.nbuckets then 1 else 0)
          + (if ltb bucket_size (1024 * 1024 * 1024) && not mock_stripe then 1 else 0)))

-- `alloc_is_interleaved`
unfoldable pub alloc_is_interleaved : InterleaveParam → Bool
alloc_is_interleaved p = not (p.nbuckets == 0 && p.nstrips == 0 && p.chunk_size == 0)
