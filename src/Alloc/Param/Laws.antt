-- ===== src/Alloc/Param/Laws.antt =====
-- Which interleave parameters pass the check, and what the check does not look at.
use famfs.Prelude.{
  ℕ, ◌/◌, ◌%◌, ◌*◌, ◌≤◌, ◌<◌, ◌≡◌, ◌≢◌, ◌⊎◌, ◌↔◌, inl, inr, Bool, true, false, Option, some,
  bit_and, sub64, arith, Bool-cases,
}
use famfs.Alloc.Param.{
  InterleaveParam, ParamCheck, errs, famfs_validate_interleave_param, alloc_is_interleaved,
}

-- Parameters for a striped file system, as the check requires them.
pub record IsStriped (mock_stripe : Bool) (p : InterleaveParam) (alloc_unit devsize : ℕ)
    : Type 0 where
  pub chunk : p.chunk_size ≢ 0
  pub power : bit_and p.chunk_size (sub64 p.chunk_size 1) ≡ 0
  pub whole : p.chunk_size % alloc_unit ≡ 0
  pub strips : p.nstrips ≤ p.nbuckets
  pub some_bucket : 0 < p.nbuckets
  pub few_buckets : p.nbuckets ≤ 64
  pub large : (1024 * 1024 * 1024 ≤ devsize / p.nbuckets) ⊎ (mock_stripe ≡ true)

module _ (mock_stripe : Bool) (p : InterleaveParam) (alloc_unit devsize : ℕ)
    (dev : 0 < devsize) where
  abbrev check : Option ParamCheck
  check = famfs_validate_interleave_param mock_stripe p alloc_unit devsize

  valid→ :
      check ≡ some (errs 0)
      → alloc_is_interleaved p ≡ true
      → IsStriped mock_stripe p alloc_unit devsize
  unfolding famfs_validate_interleave_param alloc_is_interleaved
  valid→ e i = ground arith

  valid← : IsStriped mock_stripe p alloc_unit devsize → check ≡ some (errs 0)
  unfolding famfs_validate_interleave_param
  valid← s = ground arith

  plain : alloc_is_interleaved p ≡ false → check ≡ some (errs 0)
  unfolding famfs_validate_interleave_param alloc_is_interleaved
  plain e = ground arith

  -- On a device with a size the check returns, and finds no error exactly when the parameters are
  -- all zero or fit a striped file system.
  pub validate_param_iff :
      (check ≡ some (errs 0))
      ↔ ((alloc_is_interleaved p ≡ false) ⊎ IsStriped mock_stripe p alloc_unit devsize)
  validate_param_iff = (
    λ e. elim (Bool-cases (alloc_is_interleaved p)) [ inl i ↦ inr (valid→ e i) | inr i ↦ inl i ],
    λ h. elim h [ inl i ↦ plain i | inr s ↦ valid← s ],
  )
