-- ===== src/Alloc/File/Sound.antt =====
-- The contiguous allocation, as a case of `IsTaken`.
use mathlib.Core.Option.{some-injective}
use mathlib.Core.Path.{subst}
use famfs.Prelude.{
  ℕ, ◌+◌, ◌*◌, ◌/◌, ◌^◌, ◌<◌, ◌≡◌, ◌⊎◌, inl, inr, refl, ◌∙◌, ap, sym, Option, none, some, arith, [],
  ◌∷◌,
}
use famfs.Meta.{Rc, ok, LogFmap, SimpleExtent, alloc_unit_2m}
use famfs.Alloc.Extent.{pages}
use famfs.Alloc.Build.Owners.{owners, bit}
use famfs.Alloc.Build.Extents.{fmap_extents, simple_extents}
use famfs.Alloc.File.{LockedLog, simple_fmap, famfs_alloc_contiguous, famfs_file_alloc_contiguous}
use famfs.Alloc.File.Laws.{IsReady, Took, extent_for, file_alloc_outcome}
use famfs.Alloc.Taken.{SameSizes, IsUntouched, IsTaken, aligned-Fits}

simple_fmap_extents : (e : SimpleExtent) → fmap_extents (simple_fmap e) ≡ e ∷ []
unfolding fmap_extents simple_extents simple_fmap
simple_fmap_extents e = refl

contiguous_sizes :
    (lp lp' : LockedLog) (size : ℕ) (rc : Rc) (fmap : Option LogFmap)
    → famfs_file_alloc_contiguous lp size ≡ some (lp', rc, fmap)
    → SameSizes lp lp'
unfolding famfs_file_alloc_contiguous famfs_alloc_contiguous
contiguous_sizes lp lp' size rc fmap e = record {
  nbits = ground arith;
  unit = ground arith;
  devsize = ground arith;
}

module _ (lp lp' : LockedLog) (size : ℕ) where
  contiguous-IsTaken :
      (i : ℕ)
      → SameSizes lp lp'
      → pages alloc_unit_2m size < 2 ^ 31
      → Took lp lp' size i
      → IsTaken lp lp' (simple_fmap (extent_for size i))
  unfolding owners
  contiguous-IsTaken i sizes small t =
      let e = extent_for size i in
      let one = simple_fmap_extents e in
      let n : pages alloc_unit_2m e.se_len ≡ pages alloc_unit_2m size = t.same_pages in
      record {
        sizes = sizes;
        bytes = t.bytes;
        bits = λ x. rw one (one_extent x);
        fit = rw one (aligned-Fits e (omega arith) (omega (arith, n)), tt);
        few = rw one (omega arith);
      }
    where
      one_extent :
          (x : ℕ)
          → bit lp'.bitmap x ≡ bit lp.bitmap x + owners alloc_unit_2m (extent_for size i ∷ []) x
      one_extent x =
          let at : i * alloc_unit_2m / alloc_unit_2m ≡ i = omega arith in
          rw (at, t.same_pages) (ground (arith, t.bits x, t.was_free.clear x))

  -- Whatever the contiguous allocation returns: either no map, and the bits as they were, or success,
  -- with a map of pages that it took.
  pub contiguous_sound :
      (rc : Rc) (fmap : Option LogFmap)
      → IsReady lp (pages alloc_unit_2m size)
      → 0 < size
      → size < 2 ^ 51
      → famfs_file_alloc_contiguous lp size ≡ some (lp', rc, fmap)
      → ((fmap ≡ none) × IsUntouched lp lp')
        ⊎ ((fm : LogFmap) × (rc ≡ ok) × (fmap ≡ some fm) × IsTaken lp lp' fm)
  contiguous_sound rc fmap r pos small e =
      let sizes = contiguous_sizes lp lp' size rc fmap e in
      let (lq, out) = file_alloc_outcome lp size r pos (omega arith) in
      elim out [
        | inl (f, same) ↦
            let q = some-injective _ _ (sym f ∙ e) in
            let lq_eq : lq ≡ lp' = ap (λ (t : LockedLog × Rc × Option LogFmap). t.0) q in
            let bm : lp'.bitmap ≡ lp.bitmap = ap (λ (t : LockedLog). t.bitmap) (sym lq_eq) ∙ same in
            inl (
              sym (ap (λ (t : LockedLog × Rc × Option LogFmap). t.2) q),
              record { sizes = sizes; bytes = rw bm r.bytes; bits = λ x. rw bm refl },
            )
        | inr (i, s, below, took) ↦
            let q = some-injective _ _ (sym s ∙ e) in
            let lq_eq : lq ≡ lp' = ap (λ (t : LockedLog × Rc × Option LogFmap). t.0) q in
            inr (
              simple_fmap (extent_for size i),
              sym (ap (λ (t : LockedLog × Rc × Option LogFmap). t.1) q),
              sym (ap (λ (t : LockedLog × Rc × Option LogFmap). t.2) q),
              contiguous-IsTaken i sizes (omega arith)
                  (subst (λ (t : LockedLog). Took lp t size i) lq_eq took),
            )
      ]
