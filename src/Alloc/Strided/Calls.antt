-- ===== src/Alloc/Strided/Calls.antt =====
-- The calls that `famfs_file_alloc` (src/famfs_alloc.c) makes, and that what they return is sound.
use famfs.Prelude.{
  ℕ, ◌^◌, ◌≤◌, ◌<◌, ◌≡◌, ◌⊎◌, inl, inr, refl, ◌∙◌, ap, Bool, true, ltb, leb, Option, none, some,
  ◌>>=◌, arith, Bool-cases, Option-cases,
}
use famfs.Meta.{Rc, ok, LogFmap, alloc_unit_2m}
use famfs.Bitmap.{mu_bitmap_test}
use famfs.Bitmap.Laws.{IsBytes}
use famfs.Alloc.Extent.{pages}
use famfs.Alloc.Param.{
  ParamCheck, errs, einval, famfs_validate_interleave_param, alloc_is_interleaved,
}
use famfs.Alloc.Param.Laws.{IsStriped, validate_param_iff}
use famfs.Alloc.File.{LockedLog, famfs_file_alloc_contiguous}
use famfs.Alloc.File.Laws.{IsReady}
use famfs.Alloc.File.Sound.{contiguous_sound}
use famfs.Alloc.Taken.{IsUntouched, IsTaken}
use famfs.Alloc.Strided.{StridedResult, refused, returned, is_valid_param, famfs_file_strided_alloc}
use famfs.Alloc.Strided.Sizes.{strip_size, strip_units_eq}
use famfs.Alloc.Strided.Laws.{IsPlaceable}
use famfs.Alloc.Strided.Sound.{
  Sound, nothing_refused, nothing_returned, took, not_some, ended, strided_rest,
}

-- A call that the allocator is made for: some bytes, on a bitmap in which the superblock's page is
-- taken, with 2 MiB units, and sizes that fit their words.
pub record IsAskable (lp : LockedLog) (size : ℕ) : Type 0 where
  pub unit : lp.alloc_unit ≡ alloc_unit_2m
  pub bytes : IsBytes lp.bitmap
  pub superblock : mu_bitmap_test lp.bitmap 0 ≡ true
  pub bits_word : lp.nbits ≤ 2 ^ 31
  pub some_device : 0 < lp.devsize
  pub devsize_word : lp.devsize < 2 ^ 63
  pub some_bytes : 0 < size
  pub size_word : size < 2 ^ 51

-- What striping needs besides: not more buckets than a map has strips.
pub record IsStripable (lp : LockedLog) (size : ℕ) : Type 0 where
  pub some_strips : 0 < lp.interleave_param.nstrips
  pub few_buckets : lp.interleave_param.nbuckets ≤ 16
  pub strip_int : strip_size lp size < 2 ^ 31

module _ (lp : LockedLog) (size : ℕ) (h : IsAskable lp size) where
  pub askable-IsReady : IsReady lp (pages alloc_unit_2m size)
  askable-IsReady = record {
    unit = h.unit;
    bytes = h.bytes;
    superblock = h.superblock;
    fits = omega (arith, h.bits_word, h.size_word);
  }

  pub askable-IsPlaceable :
      (mock_stripe : Bool)
      → IsStripable lp size
      → IsStriped mock_stripe lp.interleave_param lp.alloc_unit lp.devsize
      → lp.interleave_param.chunk_size ≤ size
      → IsPlaceable lp size
  askable-IsPlaceable mock_stripe st striped chunked = record {
    modest = record {
      unit = omega (arith, h.unit);
      unit_word = omega (arith, h.unit);
      some_strips = st.some_strips;
      few_strips = omega (arith, striped.strips, st.few_buckets);
      some_chunk = striped.chunk;
      whole_chunk = striped.whole;
      chunked = chunked;
      size_word = omega (arith, h.size_word);
      strip_int = st.strip_int;
    };
    bytes = h.bytes;
    superblock = h.superblock;
    fits = omega (arith, h.bits_word, st.strip_int);
    device = rw h.unit (omega (arith, h.bits_word));
    few_buckets = st.few_buckets;
    devsize_word = h.devsize_word;
    some_device = h.some_device;
  }

contiguous_ended :
    (lp' lq : LockedLog) (rc : Rc) (fmap : Option LogFmap)
    → ((fmap ≡ none) × IsUntouched lq lp')
      ⊎ ((fm : LogFmap) × (rc ≡ ok) × (fmap ≡ some fm) × IsTaken lq lp' fm)
    → Sound lq lp' (returned rc fmap)
contiguous_ended lp' lq rc fmap (inl (e, u)) = rw e (nothing_returned rc u)
contiguous_ended lp' lq rc fmap (inr (fm, e, f, t)) = rw (e, f) (took fm t)

-- The two calls of `famfs_file_alloc_contiguous`.
abbrev pub contiguous_call : LockedLog → ℕ → Option (LockedLog × StridedResult)
contiguous_call lp size = do
  (lp', rc, fmap) ← famfs_file_alloc_contiguous lp size
  some (lp', returned rc fmap)

pub contiguous_call-Sound :
    (lp lp' : LockedLog) (size : ℕ) (r : StridedResult)
    → IsAskable lp size
    → contiguous_call lp size ≡ some (lp', r)
    → Sound lp lp' r
contiguous_call-Sound lp lp' size r h e =
    elim (Option-cases (famfs_file_alloc_contiguous lp size)) [
      | inl stop ↦ absurd (not_some (rw stop at e))
      | inr ((lq, rc, fmap), run) ↦ ended lp lp' r lq (returned rc fmap) (rw run at e) (
          contiguous_ended lq lp rc fmap (
            contiguous_sound lp lq size rc fmap (askable-IsReady lp size h) h.some_bytes h.size_word
              run))
    ]

-- The position of the next search does not matter.
rebase :
    (lp lp' : LockedLog) (pos : ℕ) (r : StridedResult)
    → Sound (record lp { cur_pos = pos }) lp' r
    → Sound lp lp' r
rebase lp lp' pos r (nothing_refused check u) = nothing_refused check (record {
  sizes = record { nbits = u.sizes.nbits; unit = u.sizes.unit; devsize = u.sizes.devsize };
  bytes = u.bytes;
  bits = u.bits;
})
rebase lp lp' pos r (nothing_returned rc u) = nothing_returned rc (record {
  sizes = record { nbits = u.sizes.nbits; unit = u.sizes.unit; devsize = u.sizes.devsize };
  bytes = u.bytes;
  bits = u.bits;
})
rebase lp lp' pos r (took fm t) = took fm (record {
  sizes = record { nbits = t.sizes.nbits; unit = t.sizes.unit; devsize = t.sizes.devsize };
  bytes = t.bytes;
  bits = t.bits;
  fit = t.fit;
  few = t.few;
})

is_valid_param-errs : (check : ParamCheck) → is_valid_param check ≡ true → check ≡ errs 0
unfolding is_valid_param
is_valid_param-errs (errs n) h = let e : n ≡ 0 = ground arith in rw e refl
is_valid_param-errs einval h = absurd (ground arith)

pub strided-Sound :
    (mock_stripe : Bool) (rand : ℕ → ℕ) (lp lp' : LockedLog) (size : ℕ) (r : StridedResult)
    → IsAskable lp size
    → IsStripable lp size
    → alloc_is_interleaved lp.interleave_param ≡ true
    → famfs_file_strided_alloc mock_stripe rand lp size ≡ some (lp', r)
    → Sound lp lp' r
unfolding famfs_file_strided_alloc
strided-Sound mock_stripe rand lp lp' size r h st inter e =
    let p = lp.interleave_param in
    elim (Option-cases (famfs_validate_interleave_param mock_stripe p lp.alloc_unit lp.devsize)) [
      | inl stop ↦ absurd (not_some (rw stop at e))
      | inr (check, checked) ↦ elim (Bool-cases (is_valid_param check)) [
        | inr bad ↦ ended lp lp' r lp (refused check) (rw (checked, bad) at e) (
            nothing_refused check (record {
              sizes = record { nbits = refl; unit = refl; devsize = refl };
              bytes = h.bytes;
              bits = λ x. refl;
            }))
        | inl good ↦
            let valid =
              checked ∙ ap (λ (c : ParamCheck). some c) (is_valid_param-errs check good) in
            elim ((validate_param_iff mock_stripe p lp.alloc_unit lp.devsize h.some_device).0
              valid) [
                | inl plain ↦ absurd (ground arith)
                | inr striped ↦
                    let fit : leb p.nstrips p.nbuckets ≡ true = ground (arith, striped.strips) in
                    elim (Bool-cases (ltb size p.chunk_size)) [
                      | inl small ↦ rebase lp lp' 0 r (
                          contiguous_call-Sound (record lp { cur_pos = 0 }) lp' size r
                            (record {
                              unit = h.unit;
                              bytes = h.bytes;
                              superblock = h.superblock;
                              bits_word = h.bits_word;
                              some_device = h.some_device;
                              devsize_word = h.devsize_word;
                              some_bytes = h.some_bytes;
                              size_word = h.size_word;
                            })
                            (rw (checked, good, fit, small) at e))
                      | inr large ↦
                          let place =
                            askable-IsPlaceable lp size h mock_stripe st striped (ground arith) in
                          strided_rest rand lp lp' size r place h.unit striped.strips _ (
                            rw (checked, good, fit, large, strip_units_eq lp size place.modest) at
                              e)
                    ]
              ]
      ]
    ]
