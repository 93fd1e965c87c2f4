-- ===== src/Alloc/File/Laws.antt =====
-- A file's space: what `famfs_file_alloc_contiguous` takes and what it writes down.
use mathlib.Core.Path.{subst}
use famfs.Prelude.{
  ℕ, ◌+◌, ◌*◌, ◌^◌, ◌≤◌, ◌<◌, ◌≡◌, ◌≢◌, ◌⊎◌, inl, inr, refl, sym, ◌∙◌, ◌/◌, ap, true, false, not,
  ◌||◌, ◌==◌, Option, none, some, is_negative, minus_one, arith,
}
use mathlib.Core.Option.{some-injective}
use famfs.Meta.{Rc, ok, enomem, LogFmap, SimpleExtent, alloc_unit_2m, round_size_to_alloc_unit}
use famfs.Meta.Fmap.{se}
use famfs.Bitmap.{mu_bitmap_test}
use famfs.Bitmap.Laws.{IsBytes}
use famfs.Alloc.Extent.{pages}
use famfs.Alloc.Extent.Laws.{in_range}
use famfs.Alloc.Contiguous.{Allocation, bitmap_alloc_contiguous}
use famfs.Alloc.Contiguous.Scan.{IsFree}
use famfs.Alloc.Contiguous.Laws.{Allocated, alloc_outcome}
use famfs.Alloc.File.{LockedLog, simple_fmap, famfs_file_alloc_contiguous}

-- A locked log over a bitmap whose first page, the superblock's, is taken, and whose device ends
-- below 2 ^ 63.
pub record IsReady (lp : LockedLog) (n : ℕ) : Type 0 where
  pub unit : lp.alloc_unit ≡ alloc_unit_2m
  pub bytes : IsBytes lp.bitmap
  pub superblock : mu_bitmap_test lp.bitmap 0 ≡ true
  pub fits : lp.nbits + n ≤ 2 ^ 32

-- The extent that a success puts into the map.
abbrev pub extent_for : ℕ → ℕ → SimpleExtent
extent_for size i = record {
  se_devindex = 0;
  se_offset = i * alloc_unit_2m;
  se_len = round_size_to_alloc_unit size;
}

-- What a success does with page `i` and the `n` pages from there on.
pub record Took (lp lp' : LockedLog) (size i : ℕ) : Type 0 where
  pub was_free : IsFree lp.bitmap i (pages alloc_unit_2m size)
  pub bytes : IsBytes lp'.bitmap
  pub bits :
      (j : ℕ)
      → mu_bitmap_test lp'.bitmap j
        ≡ (in_range i (pages alloc_unit_2m size) j || mu_bitmap_test lp.bitmap j)
  pub enough : size ≤ (extent_for size i).se_len
  pub same_pages : pages alloc_unit_2m (extent_for size i).se_len ≡ pages alloc_unit_2m size

module _ (lp : LockedLog) (size : ℕ) where
  abbrev pub alloc : Allocation
  alloc = bitmap_alloc_contiguous lp.bitmap lp.nbits lp.alloc_unit size lp.cur_pos 0

  abbrev pub after : LockedLog
  after = record lp { bitmap = alloc.bitmap; cur_pos = alloc.cur_pos }

  fails :
      alloc.offset ≡ minus_one → famfs_file_alloc_contiguous lp size ≡ some (after, enomem, none)
  unfolding famfs_file_alloc_contiguous
  fails e = rw e refl

  pub succeeds :
      0 < alloc.offset
      → alloc.offset < 2 ^ 63
      → famfs_file_alloc_contiguous lp size
        ≡ some (
          after,
          ok,
          some (
              simple_fmap (record {
                se_devindex = 0;
                se_offset = alloc.offset;
                se_len = round_size_to_alloc_unit size;
              })),
        )
  unfolding famfs_file_alloc_contiguous
  succeeds pos small =
      let a : is_negative alloc.offset ≡ false = ground arith in
      let b : not (alloc.offset == 0) ≡ true = ground arith in rw (a, b) refl

  round_pages :
      0 < size
      → size < 2 ^ 63
      → (size ≤ round_size_to_alloc_unit size)
        × (pages alloc_unit_2m (round_size_to_alloc_unit size) ≡ pages alloc_unit_2m size)
  unfolding round_size_to_alloc_unit
  round_pages pos small = omega arith

  not_first :
      (i : ℕ)
      → IsReady lp (pages alloc_unit_2m size)
      → 0 < pages alloc_unit_2m size
      → IsFree lp.bitmap i (pages alloc_unit_2m size)
      → i ≢ 0
  not_first i r some_page f e = ground (arith, f.clear 0 (omega arith) (omega arith), r.superblock)

  -- With allocation units of 2 MiB and a bitmap of at most 2 ^ 32 bits, less those wanted, in
  -- which the superblock's page is taken, a request for some bytes, fewer than 2 ^ 63, returns.
  -- Either it is -ENOMEM, with no map and the bitmap unchanged; or it is success, with a map of
  -- one extent at least as long as the request: its pages were all free, and they are exactly the
  -- pages newly set.
  pub file_alloc_outcome :
      IsReady lp (pages alloc_unit_2m size)
      → 0 < size
      → size < 2 ^ 63
      → (lp' : LockedLog) × ((famfs_file_alloc_contiguous lp size ≡ some (lp', enomem, none))
            × (lp'.bitmap ≡ lp.bitmap)
          ⊎ ((i : ℕ) × (famfs_file_alloc_contiguous lp size
                ≡ some (lp', ok, some (simple_fmap (extent_for size i))))
              × (i < lp.nbits)
              × Took lp lp' size i))
  file_alloc_outcome r pos small =
      let n_pos : 0 < pages lp.alloc_unit size = rw r.unit (omega arith) in
      let n_fits : lp.nbits + pages lp.alloc_unit size ≤ 2 ^ 32 = rw r.unit r.fits in
      elim (alloc_outcome lp.bitmap lp.nbits lp.alloc_unit size lp.cur_pos 0 r.bytes n_pos n_fits) [
        | inl e ↦ (
          after,
          inl (fails (ap (λ (a : Allocation). a.offset) e), ap (λ (a : Allocation). a.bitmap) e),
        )
        | inr (i, lo, hi, al, least) ↦
            let al2 : Allocated lp.bitmap alloc_unit_2m (pages alloc_unit_2m size) i alloc =
              subst (λ u. Allocated lp.bitmap u (pages u size) i alloc) r.unit al in
            let away : i ≢ 0 = not_first i r (omega arith) al2.was_free in
            let at : alloc.offset ≡ i * alloc_unit_2m = omega (arith, al2.offset, r.fits) in
            let done = succeeds (omega (arith, at, away)) (omega (arith, at, r.fits)) in
            let round = round_pages pos small in
            (
              after,
              inr (
                i,
                rw at at done,
                hi,
                record {
                  was_free = al2.was_free;
                  bytes = al2.bytes;
                  bits = al2.bits;
                  enough = round.0;
                  same_pages = round.1;
                },
              ),
            )
      ]

map_length :
    (lp lp' : LockedLog) (size : ℕ) (fm : LogFmap)
    → famfs_file_alloc_contiguous lp size ≡ some (lp', ok, some fm)
    → (se fm 0).se_len ≡ round_size_to_alloc_unit size
unfolding famfs_file_alloc_contiguous simple_fmap
map_length lp lp' size fm e = ground arith

rounded_4k :
    (size : ℕ)
    → 0 < size
    → size ≤ 0x1ff000
    → pages 4096 size < pages 4096 (round_size_to_alloc_unit size)
unfolding round_size_to_alloc_unit
rounded_4k size pos small = omega arith

-- A locked log with units of 4096 bytes.
pub record IsReady4k (lp : LockedLog) (n : ℕ) : Type 0 where
  pub unit : lp.alloc_unit ≡ 4096
  pub bytes : IsBytes lp.bitmap
  pub superblock : mu_bitmap_test lp.bitmap 0 ≡ true
  pub fits : lp.nbits + n ≤ 2 ^ 32

refused_not :
    {lp lp' : LockedLog} {fm : LogFmap}
    → Path
        (Option (LockedLog × Rc × Option LogFmap))
        (some (lp, enomem, none))
        (some (lp', ok, some fm))
    → ⊥
refused_not e = cc

same_result :
    {lp lp' : LockedLog} {fm fm' : LogFmap}
    → Path
        (Option (LockedLog × Rc × Option LogFmap))
        (some (lp, ok, some fm))
        (some (lp', ok, some fm'))
    → (lp ≡ lp') × (fm ≡ fm')
same_result {lp} {lp'} {fm} {fm'} e =
    let pair = some-injective (lp, ok, some fm) (lp', ok, some fm') e in
    (
      ap (λ (t : LockedLog × Rc × Option LogFmap). t.0) pair,
      some-injective fm fm' (ap (λ (t : LockedLog × Rc × Option LogFmap). t.2) pair),
    )

-- With the other allocation unit that a superblock may have, 4096, a request for fewer bytes than
-- 2 MiB less a page that succeeds gets a map whose extent has more pages than the request: the length
-- in the map is rounded to 2 MiB whatever the unit is. The allocation leaves the bits of the pages
-- of the extent behind those of the request as they were.
pub file_alloc_4k_overlaps :
    (lp lp' : LockedLog) (size : ℕ) (fm : LogFmap)
    → IsReady4k lp (pages 4096 size)
    → 0 < size
    → size ≤ 0x1ff000
    → famfs_file_alloc_contiguous lp size ≡ some (lp', ok, some fm)
    → (pages 4096 size < pages 4096 (se fm 0).se_len)
      × ((j : ℕ)
          → (se fm 0).se_offset / 4096 + pages 4096 size ≤ j
          → j < (se fm 0).se_offset / 4096 + pages 4096 (se fm 0).se_len
          → mu_bitmap_test lp'.bitmap j ≡ mu_bitmap_test lp.bitmap j)
unfolding simple_fmap
file_alloc_4k_overlaps lp lp' size fm r pos small e =
    let more : pages 4096 size < pages 4096 (se fm 0).se_len =
      rw (map_length lp lp' size fm e) (rounded_4k size pos small) in
    let some_page : 0 < pages lp.alloc_unit size = rw r.unit (omega arith) in
    let fits : lp.nbits + pages lp.alloc_unit size ≤ 2 ^ 32 = rw r.unit r.fits in
    elim (alloc_outcome lp.bitmap lp.nbits lp.alloc_unit size lp.cur_pos 0 r.bytes some_page fits) [
      | inl none_ ↦
          absurd (refused_not (sym (fails lp size (ap (λ (a : Allocation). a.offset) none_)) ∙ e))
      | inr (i, lo, hi, al, least) ↦
          let al2 : Allocated lp.bitmap 4096 (pages 4096 size) i (alloc lp size) =
            subst (λ u. Allocated lp.bitmap u (pages u size) i (alloc lp size)) r.unit al in
          let away : i ≢ 0 = λ zero_.
            ground
              (arith, al2.was_free.clear 0 (omega (arith, zero_)) (omega arith), r.superblock) in
          let at : (alloc lp size).offset ≡ i * 4096 = omega (arith, al2.offset, hi, r.fits) in
          let done = succeeds lp size (omega (arith, at, away)) (omega (arith, at, hi, r.fits)) in
          let (same_lp, same_fm) = same_result (sym done ∙ e) in
          let place : (se fm 0).se_offset ≡ (alloc lp size).offset =
            ap (λ f. (se f 0).se_offset) (sym same_fm) in
          (
            more,
            λ j lo2 hi2.
                let bits = al2.bits j in
                let out : in_range i (pages 4096 size) j ≡ false = ground (arith, lo2, place, at) in
                ap (λ (l : LockedLog). mu_bitmap_test l.bitmap j) (sym same_lp)
                ∙ ground (arith, bits, out),
          )
    ]
