-- ===== src/Alloc/Strided/Laws.antt =====
-- What `famfs_file_strided_alloc` takes, what it writes into the map, and what it leaves when it
-- fails.
use famfs.Prelude.{
  ℕ, ◌+◌, ◌-◌, ◌*◌, ◌/◌, ◌%◌, ◌^◌, ◌≤◌, ◌<◌, ◌≡◌, refl, ◌∙◌, ap, Bool, true, false, ltb, leb,
  Option, none, some, u64, arith, Bool-cases, inl, inr, ◌⊎◌,
}
use famfs.Meta.{ok, enomem, SimpleExtent, LogFmap, ext_interleave}
use famfs.Meta.Fmap.{fmap_niext, ie_nstrips, ie_chunk_size, ie_strips}
use famfs.Bitmap.{mu_bitmap_test}
use famfs.Bitmap.Laws.{IsBytes}
use famfs.Alloc.Param.Laws.{IsStriped, validate_param_iff}
use famfs.Alloc.Buckets.{bucket_series_alloc}
use famfs.Alloc.File.{LockedLog}
use famfs.Alloc.Build.Owners.{owners, bit}
use famfs.Alloc.Build.Extents.{fmap_extents}
use famfs.Alloc.Strided.{
  Strips, no_extent, StridedResult, returned, strided_fmap, allocate_strips,
  famfs_file_strided_alloc, is_valid_param,
}
use famfs.Alloc.Strided.Fmap.{strip_at, owners_fmap}
use famfs.Alloc.Strided.Held.{held, held_none, held_prefix, no_pages, div_small}
use famfs.Alloc.Strided.Sizes.{
  IsModest, strip_size, strip_some, strip_units_eq, strip_len_eq, strip_pages, strips_enough,
  floor_twice, le_mul,
}
use famfs.Alloc.Strided.Loops.{Setting, Closed, Holds, take_strips_lem, free_strips_lem}

zero_mod : (u : ℕ) → 0 < u → 0 % u ≡ 0
zero_mod u h = grind arith

-- What the allocation needs: sizes that fit their words, a bitmap in which the superblock's page is
-- taken, and not more buckets than a map has strips.
pub record IsPlaceable (lp : LockedLog) (size : ℕ) : Type 0 where
  pub modest : IsModest lp size
  pub bytes : IsBytes lp.bitmap
  pub superblock : mu_bitmap_test lp.bitmap 0 ≡ true
  pub fits : lp.nbits + strip_size lp size ≤ 2 ^ 32
  pub device : lp.nbits * lp.alloc_unit < 2 ^ 63
  pub few_buckets : lp.interleave_param.nbuckets ≤ 16
  pub devsize_word : lp.devsize < 2 ^ 63
  pub some_device : 0 < lp.devsize

-- A map of strips for `size` bytes, whose pages are what `lp'` has more than `lp`.
pub record IsPlaced (lp lp' : LockedLog) (size : ℕ) (fm : LogFmap) : Type 0 where
  pub interleaved : fm.fmap_ext_type ≡ ext_interleave
  pub one : fmap_niext fm ≡ 1
  pub strips : ie_nstrips fm 0 ≡ lp.interleave_param.nstrips
  pub chunks : ie_chunk_size fm 0 ≡ lp.interleave_param.chunk_size
  pub lengths :
      (k : ℕ)
      → k < lp.interleave_param.nstrips
      → (ie_strips fm 0 k).se_len ≡ strip_size lp size * lp.alloc_unit
  pub enough : size ≤ lp.interleave_param.nstrips * (strip_size lp size * lp.alloc_unit)
  pub aligned :
      (k : ℕ) → k < lp.interleave_param.nstrips → (ie_strips fm 0 k).se_offset % lp.alloc_unit ≡ 0
  pub bytes : IsBytes lp'.bitmap
  pub pages_taken :
      (x : ℕ) → bit lp'.bitmap x ≡ bit lp.bitmap x + owners lp.alloc_unit (fmap_extents fm) x

module _ (lp : LockedLog) (size : ℕ) (h : IsPlaceable lp size) (rand : ℕ → ℕ)
    (strips_fit : lp.interleave_param.nstrips ≤ lp.interleave_param.nbuckets) where
  abbrev pub strip_len : ℕ
  strip_len = strip_size lp size * lp.alloc_unit

  abbrev pub slots : ℕ
  slots = lp.interleave_param.nbuckets

  pub setting : Setting lp.nbits lp.alloc_unit strip_len slots lp.bitmap
  setting = record {
    unit = h.modest.unit;
    word = omega (arith, h.modest.unit_word);
    some_page = rw (strip_pages lp size h.modest) (strip_some lp size h.modest);
    fits = rw (strip_pages lp size h.modest) h.fits;
    device = h.device;
    superblock = h.superblock;
    few = h.few_buckets;
  }

  abbrev pub first : Strips
  first = record { bitmap = lp.bitmap; strips = λ _. no_extent; nstrips_allocated = 0 }

  pub first-Holds : Holds lp.nbits lp.alloc_unit strip_len slots lp.bitmap setting first
  first-Holds = record {
    bytes = h.bytes;
    bits = λ x.
        let none_ =
          held_none lp.alloc_unit slots 0 x h.modest.unit (omega (arith, h.modest.unit_word)) in
        omega (arith, none_);
    aligned = λ k. zero_mod lp.alloc_unit h.modest.unit;
    freeable = λ _ k. record {
      aligned = zero_mod lp.alloc_unit h.modest.unit;
      inside =
          let first_page = div_small 0 lp.alloc_unit h.modest.unit in
          let none_ = no_pages lp.alloc_unit h.modest.unit (omega (arith, h.modest.unit_word)) in
          omega (arith, first_page, none_);
    };
    spare = λ k hk. refl;
    lengths = λ k hk. absurd (omega arith);
  }

  pub placed :
      (s : Strips)
      → Holds lp.nbits lp.alloc_unit strip_len slots lp.bitmap setting s
      → s.nstrips_allocated ≡ lp.interleave_param.nstrips
      → IsPlaced lp
          (record lp { bitmap = s.bitmap })
          size
          (strided_fmap lp.interleave_param.nstrips lp.interleave_param.chunk_size s.strips)
  unfolding strided_fmap
  placed s v e = record {
    interleaved = refl;
    one = refl;
    strips = refl;
    chunks = refl;
    lengths = λ k hk.
        ap (λ (t : SimpleExtent). t.se_len)
          (strip_at lp.interleave_param.nstrips lp.interleave_param.chunk_size s.strips k)
        ∙ v.lengths k (omega (arith, e));
    enough = strips_enough lp size h.modest;
    aligned = λ k hk.
        ap (λ (t : SimpleExtent). t.se_offset % lp.alloc_unit)
          (strip_at lp.interleave_param.nstrips lp.interleave_param.chunk_size s.strips k)
        ∙ v.aligned k;
    bytes = v.bytes;
    pages_taken = λ x.
        let n = lp.interleave_param.nstrips in
        let split : n + (slots - n) ≡ slots = omega (arith, strips_fit) in
        let all_held =
          held_prefix lp.alloc_unit s.strips n (slots - n) 0 x h.modest.unit
            (omega (arith, h.modest.unit_word)) (λ k hk. v.spare k (omega (arith, e))) in
        let same : held lp.alloc_unit s.strips slots 0 x ≡ held lp.alloc_unit s.strips n 0 x =
          rw split at all_held in
        let map_owners = owners_fmap lp.alloc_unit n lp.interleave_param.chunk_size s.strips x in
        omega (arith, v.bits x, same, map_owners);
  }

  -- What the two loops together come to.
  abbrev Outcome : Option (LockedLog × StridedResult) → Type 0
  Outcome r =
      (lp' : LockedLog) × ((r ≡ some (lp', returned enomem none))
          × ((x : ℕ) → mu_bitmap_test lp'.bitmap x ≡ mu_bitmap_test lp.bitmap x)
        ⊎ ((fm : LogFmap) × (r ≡ some (lp', returned ok (some fm))) × IsPlaced lp lp' size fm))

  allocate-Outcome :
      Closed lp.nbits lp.bitmap → Outcome (allocate_strips rand lp (strip_size lp size))
  unfolding allocate_strips
  allocate-Outcome closed =
      let n = lp.interleave_param.nstrips in
      let (s, taken, v, le) =
        take_strips_lem lp.nbits lp.alloc_unit strip_len slots lp.bitmap setting
          (lp.devsize / lp.alloc_unit / slots) n slots (bucket_series_alloc rand slots 0) first
          first-Holds h.modest.some_strips strips_fit in
      rw (strip_len_eq lp size h.modest, taken)
        (elim (Bool-cases (ltb s.nstrips_allocated n)) [
          | inl fewer ↦
              let (m', freed, _, same) =
                free_strips_lem lp.nbits lp.alloc_unit strip_len slots lp.bitmap setting s.strips
                  slots 0 s.bitmap v.bytes v.bits (v.freeable closed)
                  (omega (arith, h.few_buckets)) in
              rw (fewer, freed) (record lp { bitmap = m' }, inl (refl, same))
          | inr all ↦ rw all (
            record lp { bitmap = s.bitmap },
            inr (
              strided_fmap n lp.interleave_param.chunk_size s.strips,
              refl,
              placed s v (ground (arith, le)),
            ),
          )
        ])

-- On striped parameters that pass the check, with at most 16 buckets, for a file of at least a chunk
-- whose sizes fit their words, on a bitmap in which the superblock's page and the last page of the
-- device are taken, so that no scan reaches behind the bitmap, and whatever the random numbers, the
-- strided allocation returns. Either it is
-- -ENOMEM, with no map and every bit of the bitmap as it was, the strips taken so far given back; or
-- it is success, with a map of one interleaved extent: the requested number of strips, equally long
-- and together at least as long as the file, whose pages were all free, belong to one strip only, and
-- are exactly the pages newly set.
pub strided_alloc_outcome :
    (mock_stripe : Bool) (rand : ℕ → ℕ) (lp : LockedLog) (size : ℕ)
    → IsStriped mock_stripe lp.interleave_param lp.alloc_unit lp.devsize
    → IsPlaceable lp size
    → Closed lp.nbits lp.bitmap
    → (lp' : LockedLog) × ((famfs_file_strided_alloc mock_stripe rand lp size
            ≡ some (lp', returned enomem none))
          × ((x : ℕ) → mu_bitmap_test lp'.bitmap x ≡ mu_bitmap_test lp.bitmap x)
        ⊎ ((fm : LogFmap) × (famfs_file_strided_alloc mock_stripe rand lp size
              ≡ some (lp', returned ok (some fm)))
            × IsPlaced lp lp' size fm))
unfolding famfs_file_strided_alloc is_valid_param
strided_alloc_outcome mock_stripe rand lp size striped h closed =
    let p = lp.interleave_param in
    let valid =
      (validate_param_iff mock_stripe p lp.alloc_unit lp.devsize h.some_device).1 (inr striped) in
    let a1 : leb p.nstrips p.nbuckets ≡ true = ground (arith, striped.strips) in
    let a2 : ltb size p.chunk_size ≡ false = ground (arith, h.modest.chunked) in
    let room = floor_twice lp.devsize lp.alloc_unit p.nbuckets h.modest.unit striped.some_bucket in
    let part =
      le_mul (lp.devsize / lp.alloc_unit / p.nbuckets * lp.alloc_unit) p.nbuckets
        striped.some_bucket in
    let w1 : u64 (lp.devsize / lp.alloc_unit / p.nbuckets * lp.alloc_unit)
        ≡ lp.devsize / lp.alloc_unit / p.nbuckets * lp.alloc_unit =
      omega (arith, room, part, h.devsize_word) in
    let w2 : u64 (lp.devsize / lp.alloc_unit / p.nbuckets * lp.alloc_unit * p.nbuckets)
        ≡ lp.devsize / lp.alloc_unit / p.nbuckets * lp.alloc_unit * p.nbuckets =
      omega (arith, room, h.devsize_word) in
    let a3 : leb (lp.devsize / lp.alloc_unit / p.nbuckets * lp.alloc_unit * p.nbuckets) lp.devsize
        ≡ true =
      ground (arith, room) in
    rw (valid, a1, a2, strip_units_eq lp size h.modest, w1, w2, a3)
      (allocate-Outcome lp size h rand striped.strips closed)
