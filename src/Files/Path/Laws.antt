-- ===== src/Files/Path/Laws.antt =====
-- What `famfs_relpath_from_fullpath` of src/famfs_lib.c makes of a path below the mount point, and of
-- others.
use mathlib.Core.List.{append-nil}
use famfs.Prelude.{
  ℕ, suc, ◌+◌, ◌≡◌, ◌≢◌, ◌⊎◌, ◌∙◌, sym, refl, true, false, none, some, List, [], ◌∷◌, ◌++◌, arith,
  Bool-cases, inl, inr,
}
use famfs.Prelude.Lists.{length}
use famfs.Files.Path.{starts_with, from_index, null, pointer, famfs_relpath_from_fullpath}

true_not_false : true ≡ false → ⊥
true_not_false e = cc

starts_with-append : (mpt t : List ℕ) → starts_with (mpt ++ t) mpt ≡ true
unfolding starts_with
starts_with-append [] [] = refl
starts_with-append [] (x ∷ t) = refl
starts_with-append (x ∷ mpt) t = ground (arith, starts_with-append mpt t)

-- The converse: a path that passes the test goes on from the mount point.
prefix_of : (s mpt : List ℕ) → starts_with s mpt ≡ true → (t : List ℕ) × (s ≡ mpt ++ t)
unfolding starts_with
prefix_of s [] h = (s, refl)
prefix_of [] (c ∷ mpt) h = absurd (cc)
prefix_of (x ∷ s) (c ∷ mpt) h =
    let same : x ≡ c = ground (arith, h) in
    let (t, e) = prefix_of s mpt (ground (arith, h)) in (t, rw (same, e) refl)

index_behind : (mpt rel : List ℕ) (c : ℕ) → from_index (mpt ++ c ∷ rel) (length mpt + 1) ≡ some rel
unfolding from_index
index_behind [] [] c = refl
index_behind [] (x ∷ rel) c = refl
index_behind (x ∷ mpt) rel c =
    let step : suc (length mpt) + 1 ≡ suc (length mpt + 1) = omega arith in
    rw step (index_behind mpt rel c)

index_past : (mpt : List ℕ) → from_index mpt (length mpt + 1) ≡ none
unfolding from_index
index_past [] = refl
index_past (x ∷ mpt) =
    let step : suc (length mpt) + 1 ≡ suc (length mpt + 1) = omega arith in rw step (index_past mpt)

prefixed :
    (mpt full t : List ℕ)
    → full ≡ mpt ++ t
    → ((c : ℕ) × (rel : List ℕ) × (full ≡ mpt ++ c ∷ rel)
        × (famfs_relpath_from_fullpath mpt full ≡ pointer (some rel)))
      ⊎ ((full ≡ mpt) × (famfs_relpath_from_fullpath mpt full ≡ pointer none))
unfolding famfs_relpath_from_fullpath
prefixed mpt full (c ∷ rel) e =
    inl (c, rel, e, rw (e, starts_with-append mpt (c ∷ rel), index_behind mpt rel c) refl)
prefixed mpt full [] e =
    let same : full ≡ mpt = rw (append-nil mpt) at (e) in
    let itself : starts_with mpt mpt ≡ true = rw (append-nil mpt) at (starts_with-append mpt []) in
    inr (same, rw (same, itself, index_past mpt) refl)

-- A path is the mount point, some byte and a rest, and the rest is the result, so that the byte need
-- not be a slash; or it is the mount point, and the result points behind its terminator; or it does not
-- begin with the mount point, and the result is null.
pub relpath_lem :
    (mpt full : List ℕ)
    → ((c : ℕ) × (rel : List ℕ) × (full ≡ mpt ++ c ∷ rel)
        × (famfs_relpath_from_fullpath mpt full ≡ pointer (some rel)))
      ⊎ ((full ≡ mpt) × (famfs_relpath_from_fullpath mpt full ≡ pointer none))
      ⊎ (((t : List ℕ) → full ≢ mpt ++ t) × (famfs_relpath_from_fullpath mpt full ≡ null))
unfolding famfs_relpath_from_fullpath
relpath_lem mpt full = elim (Bool-cases (starts_with full mpt)) [
  | inl yes_ ↦
      let (t, e) = prefix_of full mpt yes_ in
      elim (prefixed mpt full t e) [ inl below ↦ inl below | inr top ↦ inr (inl top) ]
  | inr no_ ↦ inr (
      inr
        (λ t e. absurd (true_not_false (sym (rw e (starts_with-append mpt t)) ∙ no_)), rw no_ refl))
]
