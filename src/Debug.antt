-- ===== src/Debug.antt =====
-- `famfs_compare_log_file_meta` of src/famfs_debug.c, which checks the metadata of a file after a
-- round trip through its yaml form. The messages are left out.
pub mod Laws
use famfs.Prelude.{ℕ, zero, suc, ◌+◌, Bool, ◌&&◌, not, ◌==◌, if◌then◌else◌}
use famfs.Prelude.Lists.{list_eq}
use famfs.Meta.{SimpleExtent, LogFmap, LogFileMeta, ext_simple, ext_interleave}
use famfs.Meta.Fmap.{fmap_nextents, fmap_niext, se, ie_nstrips, ie_chunk_size, ie_strips}

-- `memcmp` of two extents, which have no padding
pub same_extent : SimpleExtent → SimpleExtent → Bool
same_extent a b =
    a.se_devindex == b.se_devindex && a.se_offset == b.se_offset && a.se_len == b.se_len

abbrev pub one_if_not : Bool → ℕ
one_if_not b = if b then 0 else 1

-- The mismatches among the `left` extents from i on.
pub famfs_compare_simple_ext_list : ℕ → ℕ → (ℕ → SimpleExtent) → (ℕ → SimpleExtent) → ℕ
famfs_compare_simple_ext_list zero i se1 se2 = 0
famfs_compare_simple_ext_list (suc left) i se1 se2 =
    one_if_not (same_extent (se1 i) (se2 i)) + famfs_compare_simple_ext_list left (i + 1) se1 se2

-- The loop over the interleaved extents, with `left` of them from j on; as many strips are compared as
-- there are interleaved extents.
pub compare_interleaved : LogFmap → LogFmap → ℕ → ℕ → ℕ
compare_interleaved m1 m2 zero j = 0
compare_interleaved m1 m2 (suc left) j =
    one_if_not (ie_nstrips m1 j == ie_nstrips m2 j)
    + one_if_not (ie_chunk_size m1 j == ie_chunk_size m2 j)
    + famfs_compare_simple_ext_list (fmap_niext m1) 0 (ie_strips m1 j) (ie_strips m2 j)
    + compare_interleaved m1 m2 left (j + 1)

pub compare_fields : LogFileMeta → LogFileMeta → ℕ
compare_fields m1 m2 =
    one_if_not (m1.fm_size == m2.fm_size)
    + one_if_not (m1.fm_flags == m2.fm_flags)
    + one_if_not (m1.fm_uid == m2.fm_uid)
    + one_if_not (m1.fm_gid == m2.fm_gid)
    + one_if_not (m1.fm_mode == m2.fm_mode)
    + one_if_not (list_eq m1.fm_relpath m2.fm_relpath)

pub famfs_compare_log_file_meta : LogFileMeta → LogFileMeta → ℕ
famfs_compare_log_file_meta m1 m2 =
    let errs = compare_fields m1 m2 in
    if not (m1.fm_fmap.fmap_ext_type == m2.fm_fmap.fmap_ext_type)
    then errs + 1
    else if m1.fm_fmap.fmap_ext_type == ext_simple
    then errs
      + famfs_compare_simple_ext_list (fmap_nextents m1.fm_fmap) 0 (se m1.fm_fmap) (se m2.fm_fmap)
    else if m1.fm_fmap.fmap_ext_type == ext_interleave
    then errs + compare_interleaved m1.fm_fmap m2.fm_fmap (fmap_niext m1.fm_fmap) 0
    else errs
