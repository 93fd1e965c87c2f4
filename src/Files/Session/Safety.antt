-- ===== src/Files/Session/Safety.antt =====
-- From mkfs on (src/famfs_lib.c), whatever is made and in whatever order, fsck finds no collision.
use famfs.Prelude.{ℕ, ◌^◌, ◌≤◌, ◌≡◌, refl, false, some, arith}
use famfs.Meta.{FamfsLog, Checksum, alloc_unit_2m}
use famfs.Log.Inv.{IsValid}
use famfs.Super.{new_log}
use famfs.Super.Laws.{new_log-IsValid}
use famfs.Alloc.Extent.{pages}
use famfs.Alloc.Taken.{aligned-Fits}
use famfs.Alloc.Build.{Build, famfs_build_bitmap}
use famfs.Alloc.Build.Owners.{owners}
use famfs.Alloc.Build.Extents.{log_extents}
use famfs.Alloc.Build.Laws.{all_extents, reserved, build_bitmap_lem}
use famfs.Host.{Posix}
use famfs.Files.Mkfile.{Session, Setup}
use famfs.Files.Session.{Reach, AllFit}
use famfs.Files.Session.Space.{IsSparse, IsSized}
use famfs.Files.Session.Laws.{IsConsistent, Reach-IsConsistent}

pub new_log-IsSparse :
    (sum : Checksum) (log_len : ℕ)
    → 592 ≤ log_len
    → log_len ≤ 2 ^ 36
    → IsSparse sum (new_log sum log_len)
unfolding new_log log_extents owners
new_log-IsSparse sum log_len lo hi = record {
  valid = new_log-IsValid sum log_len lo (omega arith);
  slots = ground arith;
  len_word = omega arith;
  fit = (aligned-Fits (reserved (new_log sum log_len)) refl (ground arith), tt);
  few = omega arith;
  single = λ j. ground arith;
}

-- The invariant gives a clean run of fsck.
sparse_clean :
    (sum : Checksum) (logp : FamfsLog) (devsize : ℕ)
    → IsSparse sum logp
    → (b : Build) × (famfs_build_bitmap sum logp alloc_unit_2m devsize
        ≡ some (b, pages alloc_unit_2m devsize))
      × (b.errors ≡ 0)
sparse_clean sum logp devsize sp =
    let (b, run, bits, errors) =
      build_bitmap_lem sum logp alloc_unit_2m devsize (λ z. absurd (omega arith)) refl sp.fit
        (omega (arith, sp.few, sp.slots, sp.valid.room)) in
    (b, run, errors.1 sp.single)

module _ (P : Posix) (env : Setup) (c c' : Session P.State) (log_len : ℕ) where
  -- Start from the log that mkfs writes, of at least one slot and at most 2 ^ 36 bytes, on a device of
  -- less than 2 ^ 51 bytes with 2 MiB units. After any sequence of calls that make files and
  -- directories or add a device, whatever their outcomes, and of releases of the lock, the log is valid,
  -- no page has two owners, and `famfs_build_bitmap` returns with no error. The files have less than
  -- 2 ^ 51 bytes each and, where they are striped, at most 16 buckets and sizes that fit their words.
  -- The bitmap of the model has no end: a call in which the code would reach behind its own has no
  -- meaning in C, and nothing is said of it there.
  pub no_page_has_two_owners :
      c.logp ≡ new_log env.sum log_len
      → 592 ≤ log_len
      → log_len ≤ 2 ^ 36
      → IsSized c.lp
      → c.built ≡ false
      → (reach : Reach P env c c') → AllFit P env c c' reach
      → IsValid env.sum c'.logp
        × ((j : ℕ) → owners alloc_unit_2m (all_extents env.sum c'.logp) j ≤ 1)
        × ((devsize : ℕ)
            → (b : Build) × (famfs_build_bitmap env.sum c'.logp alloc_unit_2m devsize
                ≡ some (b, pages alloc_unit_2m devsize))
              × (b.errors ≡ 0))
  no_page_has_two_owners fresh lo hi sized unbuilt reach fits =
      let first : IsConsistent env.sum P.State c = record {
        sparse = rw fresh (new_log-IsSparse env.sum log_len lo hi);
        sized = sized;
        covered = λ b. absurd (cc);
      } in
      let sp = (Reach-IsConsistent P env c c' first reach fits).sparse in
      (sp.valid, sp.single, λ devsize. sparse_clean env.sum c'.logp devsize sp)
