-- ===== src/Files/Session/Space.antt =====
-- The invariant of the space over the life of a file system: no page has two owners, and the bitmap, if
-- there is one, has every owned page; src/famfs_alloc.c and src/famfs_lib.c keep it together.
use mathlib.Core.Option.{some-injective}
use mathlib.Core.Path.{subst}
use famfs.Prelude.{
  ℕ, ◌+◌, ◌*◌, ◌^◌, ◌≤◌, ◌<◌, ◌≡◌, refl, ap, sym, inl, inr, Option-cases, Bool, true, false, some,
  arith,
}
use famfs.Prelude.Lists.{length, length-append, All, All-append}
use famfs.Meta.{FamfsLog, Checksum, LogPayload, alloc_unit_2m}
use famfs.Log.Inv.{IsValid, Appended}
use famfs.Bitmap.Laws.{IsBytes}
use famfs.Alloc.Extent.{pages}
use famfs.Alloc.Param.{alloc_is_interleaved}
use famfs.Files.Mkfile.Effects.{no_none}
use famfs.Alloc.File.{LockedLog}
use famfs.Alloc.Build.{famfs_build_bitmap}
use famfs.Alloc.Build.Owners.{owners, owners_cons, owners-append, Fits, bit}
use famfs.Alloc.Build.Extents.{log_extents, payload_extents}
use famfs.Alloc.Build.Laws.{all_extents, reserved, build_bitmap_full}
use famfs.Alloc.Build.Growth.{all_extents-Appended}
use famfs.Alloc.Strided.Calls.{IsAskable, IsStripable}
use famfs.Alloc.Choice.{ensure_bitmap}

-- The log: valid entries whose extents, with the superblock and the log, do not overlap.
pub record IsSparse (sum : Checksum) (logp : FamfsLog) : Type 0 where
  pub valid : IsValid sum logp
  pub slots : logp.last_index < 2 ^ 27
  pub len_word : logp.log_len < 2 ^ 51
  pub fit : All (Fits alloc_unit_2m) (all_extents sum logp)
  pub few : length (all_extents sum logp) ≤ 1 + 16 * logp.next_index
  pub single : (j : ℕ) → owners alloc_unit_2m (all_extents sum logp) j ≤ 1

-- The device, and the bitmap that was built for it.
pub record IsSized (lp : LockedLog) : Type 0 where
  pub unit : lp.alloc_unit ≡ alloc_unit_2m
  pub some_device : 0 < lp.devsize
  pub devsize_word : lp.devsize < 2 ^ 51

-- The bitmap has what the log gives out, and possibly more: pages of files that were not logged.
pub record IsCovered (sum : Checksum) (logp : FamfsLog) (lp : LockedLog) : Type 0 where
  pub bytes : IsBytes lp.bitmap
  pub nbits : lp.nbits ≡ pages alloc_unit_2m lp.devsize
  pub owned : (j : ℕ) → owners alloc_unit_2m (all_extents sum logp) j ≤ bit lp.bitmap j

module _ (sum : Checksum) (logp : FamfsLog) (lp : LockedLog) where
  -- The parameters of striping are not touched.
  pub ensure_bitmap-IsStripable :
      (size : ℕ) (built : Bool) (lp' : LockedLog)
      → (alloc_is_interleaved lp.interleave_param ≡ true → IsStripable lp size)
      → ensure_bitmap sum logp built lp ≡ some lp'
      → alloc_is_interleaved lp'.interleave_param ≡ true
      → IsStripable lp' size
  unfolding ensure_bitmap
  ensure_bitmap-IsStripable size true lp' h e =
      subst (λ l. alloc_is_interleaved l.interleave_param ≡ true → IsStripable l size)
        (some-injective lp lp' e) h
  ensure_bitmap-IsStripable size false lp' h e =
      elim (Option-cases (famfs_build_bitmap sum logp lp.alloc_unit lp.devsize)) [
        | inl stop ↦ absurd (no_none (rw stop at e))
        | inr ((b, n), run) ↦
            let made = record lp { bitmap = b.bitmap; nbits = n; cur_pos = 0 } in
            subst (λ l. alloc_is_interleaved l.interleave_param ≡ true → IsStripable l size)
              (some-injective made lp' (rw run at e))
              (λ i. record {
                some_strips = (h i).some_strips;
                few_buckets = (h i).few_buckets;
                strip_int = (h i).strip_int;
              })
      ]

module _ (sum : Checksum) (logp : FamfsLog) (lp : LockedLog) (sp : IsSparse sum logp)
    (sz : IsSized lp) where
  superblock_owned : owners alloc_unit_2m (all_extents sum logp) 0 ≡ 1
  superblock_owned = ground (
    arith,
    sp.single 0,
    sp.len_word,
    owners_cons alloc_unit_2m (reserved logp) (log_extents sum logp.entries logp.next_index 0) 0,
  )

  pub ensure_bitmap-IsCovered :
      (built : Bool) (lp' : LockedLog)
      → (built ≡ true → IsCovered sum logp lp)
      → ensure_bitmap sum logp built lp ≡ some lp'
      → IsCovered sum logp lp' × IsSized lp'
  unfolding ensure_bitmap
  ensure_bitmap-IsCovered true lp' h e =
      subst (λ l. IsCovered sum logp l × IsSized l) (some-injective lp lp' e) (h refl, sz)
  ensure_bitmap-IsCovered false lp' h e =
      let unit = sz.unit in
      let (b, run, bits, errors, bytes) =
        build_bitmap_full sum logp alloc_unit_2m lp.devsize (λ z. absurd (omega arith)) refl sp.fit
          (omega (arith, sp.few, sp.slots, sp.valid.room)) in
      let run' =
        subst
          (λ u. famfs_build_bitmap sum logp u lp.devsize ≡ some (b, pages alloc_unit_2m lp.devsize))
          (sym unit) run in
      let made = record lp {
        bitmap = b.bitmap;
        nbits = pages alloc_unit_2m lp.devsize;
        cur_pos = 0;
      } in
      subst (λ l. IsCovered sum logp l × IsSized l) (some-injective made lp' (rw run' at e))
        (
          record { bytes = bytes; nbits = refl; owned = λ j. ground (arith, bits j, sp.single j) },
          record { unit = unit; some_device = sz.some_device; devsize_word = sz.devsize_word },
        )

  pub covered-IsAskable :
      (size : ℕ) → IsCovered sum logp lp → 0 < size → size < 2 ^ 51 → IsAskable lp size
  covered-IsAskable size c pos word = record {
    unit = sz.unit;
    bytes = c.bytes;
    superblock = ground (arith, c.owned 0, superblock_owned);
    bits_word = omega (arith, c.nbits, sz.devsize_word);
    some_device = sz.some_device;
    devsize_word = omega (arith, sz.devsize_word);
    some_bytes = pos;
    size_word = word;
  }

module _ (sum : Checksum) (logp logp' : FamfsLog) (e : LogPayload) (sp : IsSparse sum logp)
    (a : Appended sum logp e logp') where
  pub owners-Appended :
      (j : ℕ)
      → owners alloc_unit_2m (all_extents sum logp') j
        ≡ owners alloc_unit_2m (all_extents sum logp) j + owners alloc_unit_2m (payload_extents e) j
  owners-Appended j =
      rw (all_extents-Appended sum logp logp' e a)
        (owners-append alloc_unit_2m (all_extents sum logp) (payload_extents e) j)

  pub appended-IsSparse :
      All (Fits alloc_unit_2m) (payload_extents e)
      → length (payload_extents e) ≤ 16
      → ((j : ℕ)
          → owners alloc_unit_2m (all_extents sum logp) j
              + owners alloc_unit_2m (payload_extents e) j
            ≤ 1)
      → IsSparse sum logp'
  appended-IsSparse fit few single =
      let grown = all_extents-Appended sum logp logp' e a in
      record {
        valid = a.valid;
        slots = omega (arith, a.same_last, sp.slots);
        len_word = omega (arith, a.same_len, sp.len_word);
        fit =
            subst (λ es. All (Fits alloc_unit_2m) es) (sym grown)
              (All-append (Fits alloc_unit_2m) (all_extents sum logp) (payload_extents e) sp.fit
                fit);
        few = omega (
          arith,
          ap (length) grown,
          length-append (all_extents sum logp) (payload_extents e),
          sp.few,
          few,
          a.next,
        );
        single = λ j. omega (arith, owners-Appended j, single j);
      }
