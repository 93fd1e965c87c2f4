-- ===== src/Alloc/Strided/Sound.antt =====
-- The strided allocation, as a case of `IsTaken`: what holds of whatever it returns.
use mathlib.Core.Option.{some-injective}
use mathlib.Core.Path.{subst}
use famfs.Prelude.{
  ℕ, zero, suc, ◌+◌, ◌*◌, ◌/◌, ◌%◌, ◌≤◌, ◌<◌, ◌≡◌, inl, inr, refl, Bool, true, false, ltb, Option,
  none, some, ◌>>◌, assert, arith, [], ◌++◌, Bool-cases, Option-cases,
}
use famfs.Prelude.Lists.{length, All}
use famfs.Meta.{Rc, ok, enomem, LogFmap, ext_interleave, alloc_unit_2m}
use famfs.Meta.Fmap.{fmap_niext, ie_nstrips, ie_strips}
use famfs.Alloc.Extent.{pages}
use famfs.Alloc.Param.{ParamCheck}
use famfs.Alloc.Buckets.{bucket_series_alloc}
use famfs.Alloc.Build.Owners.{owners, Fits, bit}
use famfs.Alloc.Build.Extents.{fmap_extents, interleaved_extents, strip_extents}
use famfs.Alloc.File.{LockedLog}
use famfs.Alloc.Taken.{SameSizes, IsUntouched, IsTaken, aligned-Fits}
use famfs.Alloc.Strided.{
  StridedResult, refused, returned, free_strips, strided_fmap, allocate_strips,
}
use famfs.Alloc.Strided.Sizes.{strip_size, strip_len_eq, strip_pages}
use famfs.Alloc.Strided.Loops.{take_strips_lem, free_strips_back}
use famfs.Alloc.Strided.Laws.{IsPlaceable, IsPlaced, setting, first, first-Holds, placed, strip_len}

-- What an allocation may return: no map and the bits as they were, or success and a map of pages
-- that it took.
pub data Sound (lp lp' : LockedLog) : StridedResult → Type 0 where
  nothing_refused : (check : ParamCheck) → IsUntouched lp lp' → Sound lp lp' (refused check)
  nothing_returned : (rc : Rc) → IsUntouched lp lp' → Sound lp lp' (returned rc none)
  took : (fm : LogFmap) → IsTaken lp lp' fm → Sound lp lp' (returned ok (some fm))

pub not_some : {x : LockedLog × StridedResult} → none ≡ some x → ⊥
not_some e = cc

pub ended :
    (lp lp' : LockedLog) (r : StridedResult) (lq : LockedLog) (q : StridedResult)
    → Path (Option (LockedLog × StridedResult)) (some (lq, q)) (some (lp', r))
    → Sound lp lq q
    → Sound lp lp' r
ended lp lp' r lq q e s =
    subst (λ (t : LockedLog × StridedResult). Sound lp t.0 t.1) (some-injective (lq, q) (lp', r) e)
      s

-- An interleaved map of one extent has the strips as its extents.
interleaved_one :
    (fm : LogFmap)
    → fm.fmap_ext_type ≡ ext_interleave
    → fmap_niext fm ≡ 1
    → fmap_extents fm ≡ strip_extents fm 0 (ie_nstrips fm 0) 0 ++ []
unfolding fmap_extents interleaved_extents
interleaved_one fm t one = rw (t, one) refl

module _ (fm : LogFmap) where
  strips-Fits :
      (left k : ℕ)
      → ((j : ℕ) → k ≤ j → j < k + left → Fits alloc_unit_2m (ie_strips fm 0 j))
      → All (Fits alloc_unit_2m) (strip_extents fm 0 left k ++ [])
  unfolding strip_extents
  strips-Fits zero k h = tt
  strips-Fits (suc left) k h = (
    h k (omega arith) (omega arith),
    strips-Fits left (k + 1) (λ j lo hi. h j (omega arith) (omega arith)),
  )

  length-strips : (left k : ℕ) → length (strip_extents fm 0 left k ++ []) ≡ left
  unfolding strip_extents
  length-strips zero k = refl
  length-strips (suc left) k = omega (arith, length-strips left (k + 1))

module _ (lp : LockedLog) (size : ℕ) (h : IsPlaceable lp size)
    (unit : lp.alloc_unit ≡ alloc_unit_2m)
    (strips_fit : lp.interleave_param.nstrips ≤ lp.interleave_param.nbuckets) where
  placed-IsTaken :
      (lp' : LockedLog) (fm : LogFmap)
      → SameSizes lp lp'
      → IsPlaced lp lp' size fm
      → IsTaken lp lp' fm
  placed-IsTaken lp' fm sizes p =
      let one = interleaved_one fm p.interleaved p.one in
      let n : pages alloc_unit_2m (strip_size lp size * alloc_unit_2m) ≡ strip_size lp size =
        subst (λ u. pages u (strip_size lp size * u) ≡ strip_size lp size) unit
          (strip_pages lp size h.modest) in
      let strip = λ (j : ℕ) (hj : j < ie_nstrips fm 0).
        let inside : j < lp.interleave_param.nstrips = omega (arith, p.strips) in
        let len : (ie_strips fm 0 j).se_len ≡ strip_size lp size * alloc_unit_2m =
          subst (λ u. (ie_strips fm 0 j).se_len ≡ strip_size lp size * u) unit
            (p.lengths j inside) in
        let start : (ie_strips fm 0 j).se_offset % alloc_unit_2m ≡ 0 =
          subst (λ u. (ie_strips fm 0 j).se_offset % u ≡ 0) unit (p.aligned j inside) in
        aligned-Fits (ie_strips fm 0 j) start (rw (len, n) h.modest.strip_int) in
      record {
        sizes = sizes;
        bytes = p.bytes;
        bits = λ x.
            subst (λ u. bit lp'.bitmap x ≡ bit lp.bitmap x + owners u (fmap_extents fm) x) unit
              (p.pages_taken x);
        fit = rw one (strips-Fits fm (ie_nstrips fm 0) 0 (λ j lo hi. strip j (omega arith)));
        few = rw one (rw length-strips (omega (arith, p.strips, h.modest.few_strips)));
      }

  pub allocate-Sound :
      (rand : ℕ → ℕ) (lp' : LockedLog) (r : StridedResult)
      → allocate_strips rand lp (strip_size lp size) ≡ some (lp', r)
      → Sound lp lp' r
  unfolding allocate_strips
  allocate-Sound rand lp' r e =
      let n = lp.interleave_param.nstrips in
      let (s, taken, v, le) =
        take_strips_lem lp.nbits lp.alloc_unit (strip_len lp size h rand strips_fit)
          lp.interleave_param.nbuckets lp.bitmap (setting lp size h rand strips_fit)
          (lp.devsize / lp.alloc_unit / lp.interleave_param.nbuckets) n lp.interleave_param.nbuckets
          (bucket_series_alloc rand lp.interleave_param.nbuckets 0)
          (first lp size h rand strips_fit) (first-Holds lp size h rand strips_fit)
          h.modest.some_strips strips_fit in
      let run = rw (strip_len_eq lp size h.modest, taken) at e in
      elim (Bool-cases (ltb s.nstrips_allocated n)) [
        | inl fewer ↦
            elim (Option-cases (
              free_strips lp.nbits lp.alloc_unit s.strips lp.interleave_param.nbuckets 0
                s.bitmap)) [
                  | inl stop ↦ absurd (not_some (rw (fewer, stop) at run))
                  | inr (m, freed) ↦
                      let back =
                        free_strips_back lp.nbits lp.alloc_unit
                          (strip_len lp size h rand strips_fit) lp.interleave_param.nbuckets
                          lp.bitmap (setting lp size h rand strips_fit) s.strips
                          lp.interleave_param.nbuckets 0 s.bitmap m v.bytes v.bits v.aligned
                          freed in
                      ended lp lp' r (record lp { bitmap = m }) (returned enomem none)
                        (rw (fewer, freed) at run)
                        (nothing_returned enomem (record {
                          sizes = record { nbits = refl; unit = refl; devsize = refl };
                          bytes = back.0;
                          bits = back.1;
                        }))
                ]
        | inr all ↦
            ended lp lp' r (record lp { bitmap = s.bitmap })
              (returned ok (some (strided_fmap n lp.interleave_param.chunk_size s.strips)))
              (rw all at run)
              (took (strided_fmap n lp.interleave_param.chunk_size s.strips) (
                placed-IsTaken (record lp { bitmap = s.bitmap })
                  (strided_fmap n lp.interleave_param.chunk_size s.strips)
                  (record { nbits = refl; unit = refl; devsize = refl })
                  (placed lp size h rand strips_fit s v (ground (arith, le)))))
      ]

pub strided_rest :
    (rand : ℕ → ℕ) (lp lp' : LockedLog) (size : ℕ) (r : StridedResult) (h : IsPlaceable lp size)
    → lp.alloc_unit ≡ alloc_unit_2m
    → lp.interleave_param.nstrips ≤ lp.interleave_param.nbuckets
    → (fits : Bool) → (assert fits >> allocate_strips rand lp (strip_size lp size)) ≡ some (lp', r)
    → Sound lp lp' r
strided_rest rand lp lp' size r h unit strips true e =
    allocate-Sound lp size h unit strips rand lp' r e
strided_rest rand lp lp' size r h unit strips false e = absurd (not_some e)
