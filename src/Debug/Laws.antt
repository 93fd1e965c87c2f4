-- ===== src/Debug/Laws.antt =====
-- What it means that `famfs_compare_log_file_meta` finds no mismatch.
use famfs.Prelude.{
  ℕ, zero, suc, ◌+◌, ◌≤◌, ◌<◌, ◌≡◌, ◌↔◌, refl, true, false, ◌==◌, arith, Bool-cases, inl, inr,
}
use famfs.Prelude.Lists.{list_eq_iff}
use famfs.Meta.{SimpleExtent, LogFileMeta, ext_simple, ext_interleave}
use famfs.Meta.Fmap.{fmap_nextents, fmap_niext, se, ie_nstrips, ie_chunk_size, ie_strips}
use famfs.Debug.{
  same_extent, famfs_compare_simple_ext_list, compare_interleaved, compare_fields,
  famfs_compare_log_file_meta,
}

same_extent_iff : (a b : SimpleExtent) → (same_extent a b ≡ true) ↔ (a ≡ b)
unfolding same_extent
same_extent_iff a b = ground arith

list→ :
    (left i : ℕ) (f g : ℕ → SimpleExtent)
    → famfs_compare_simple_ext_list left i f g ≡ 0
    → (k : ℕ) → i ≤ k
    → k < i + left
    → f k ≡ g k
unfolding famfs_compare_simple_ext_list
list→ zero i f g e k lo hi = absurd (omega arith)
list→ (suc left) i f g e k lo hi = elim (Bool-cases (same_extent (f i) (g i))) [
  | inl y ↦ elim (Bool-cases (i == k)) [
    | inl at ↦ let here : i ≡ k = ground arith in rw here at ((same_extent_iff (f i) (g i)).0 y)
    | inr away ↦ list→ left (i + 1) f g (ground arith) k (ground arith) (omega arith)
  ]
  | inr n ↦ absurd (ground arith)
]

list← :
    (left i : ℕ) (f g : ℕ → SimpleExtent)
    → ((k : ℕ) → i ≤ k → k < i + left → f k ≡ g k)
    → famfs_compare_simple_ext_list left i f g ≡ 0
unfolding famfs_compare_simple_ext_list
list← zero i f g h = refl
list← (suc left) i f g h =
    let y = (same_extent_iff (f i) (g i)).1 (h i (omega arith) (omega arith)) in
    rw (y, list← left (i + 1) f g (λ k lo hi. h k (omega arith) (omega arith))) refl

-- Everything but the map.
pub record SameFields (m1 m2 : LogFileMeta) : Type 0 where
  pub size : m1.fm_size ≡ m2.fm_size
  pub flags : m1.fm_flags ≡ m2.fm_flags
  pub uid : m1.fm_uid ≡ m2.fm_uid
  pub gid : m1.fm_gid ≡ m2.fm_gid
  pub mode : m1.fm_mode ≡ m2.fm_mode
  pub relpath : m1.fm_relpath ≡ m2.fm_relpath

fields_iff : (m1 m2 : LogFileMeta) → (compare_fields m1 m2 ≡ 0) ↔ SameFields m1 m2
unfolding compare_fields
fields_iff m1 m2 = ground (arith, list_eq_iff m1.fm_relpath m2.fm_relpath)

list_iff :
    (n : ℕ) (f g : ℕ → SimpleExtent)
    → (famfs_compare_simple_ext_list n 0 f g ≡ 0) ↔ ((k : ℕ) → k < n → f k ≡ g k)
list_iff n f g = (
  λ e k hk. list→ n 0 f g e k (omega arith) (omega arith),
  λ h. list← n 0 f g (λ k lo hi. h k (omega arith)),
)

sum_zero : (a b : ℕ) → (a + b ≡ 0) ↔ ((a ≡ 0) × (b ≡ 0))
sum_zero a b = ground arith

-- For a file of simple extents no mismatch is found exactly if the size, flags, owner, mode and path
-- agree, the other map is of simple extents too, and it has the same extents as far as the first map
-- has some: the counts of extents are not compared.
pub compare_simple_iff :
    (m1 m2 : LogFileMeta)
    → m1.fm_fmap.fmap_ext_type ≡ ext_simple
    → (famfs_compare_log_file_meta m1 m2 ≡ 0) ↔ (
        SameFields m1 m2
        × (m2.fm_fmap.fmap_ext_type ≡ ext_simple)
        × ((k : ℕ) → k < fmap_nextents m1.fm_fmap → se m1.fm_fmap k ≡ se m2.fm_fmap k))
unfolding famfs_compare_log_file_meta
compare_simple_iff m1 m2 simple =
    let fields = fields_iff m1 m2 in
    let list = list_iff (fmap_nextents m1.fm_fmap) (se m1.fm_fmap) (se m2.fm_fmap) in
    elim (Bool-cases (m1.fm_fmap.fmap_ext_type == m2.fm_fmap.fmap_ext_type)) [
      | inr n ↦ rw n (λ e. absurd (omega arith), λ g. absurd (ground (arith, simple, g.1)))
      | inl y ↦
          let s : (m1.fm_fmap.fmap_ext_type == ext_simple) ≡ true = ground arith in
          let t : m2.fm_fmap.fmap_ext_type ≡ ext_simple = ground arith in
          rw (y, s)
            (
              λ e. let parts = (sum_zero _ _).0 e in (fields.0 parts.0, t, list.0 parts.1),
              λ (f, same, l). (sum_zero _ _).1 (fields.1 f, list.1 l),
            )
    ]

-- For a file of one interleaved extent no mismatch is found exactly if those fields agree and the
-- other map is interleaved with the same number of strips, the same chunk size and the same first
-- strip: the other strips are not compared.
pub compare_interleaved_iff :
    (m1 m2 : LogFileMeta)
    → m1.fm_fmap.fmap_ext_type ≡ ext_interleave
    → fmap_niext m1.fm_fmap ≡ 1
    → (famfs_compare_log_file_meta m1 m2 ≡ 0) ↔ (
        SameFields m1 m2
        × (m2.fm_fmap.fmap_ext_type ≡ ext_interleave)
        × (ie_nstrips m1.fm_fmap 0 ≡ ie_nstrips m2.fm_fmap 0)
        × (ie_chunk_size m1.fm_fmap 0 ≡ ie_chunk_size m2.fm_fmap 0)
        × (ie_strips m1.fm_fmap 0 0 ≡ ie_strips m2.fm_fmap 0 0))
unfolding famfs_compare_log_file_meta compare_interleaved famfs_compare_simple_ext_list
compare_interleaved_iff m1 m2 inter one =
    let fields = fields_iff m1 m2 in
    let strip = same_extent_iff (ie_strips m1.fm_fmap 0 0) (ie_strips m2.fm_fmap 0 0) in
    elim (Bool-cases (m1.fm_fmap.fmap_ext_type == m2.fm_fmap.fmap_ext_type)) [
      | inr n ↦ rw n (λ e. absurd (omega arith), λ g. absurd (ground (arith, inter, g.1)))
      | inl y ↦
          let s : (m1.fm_fmap.fmap_ext_type == ext_simple) ≡ false = ground arith in
          let i : (m1.fm_fmap.fmap_ext_type == ext_interleave) ≡ true = ground arith in
          let t : m2.fm_fmap.fmap_ext_type ≡ ext_interleave = ground arith in
          rw (y, s, i, one) (ground (arith, fields, strip, t))
    ]
