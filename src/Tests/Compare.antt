-- ===== src/Tests/Compare.antt =====
-- Metadata of files that differ where it is not compared.
use famfs.Prelude.{ℕ, ◌*◌, ◌<◌, ◌≡◌, ◌↔◌, refl, ◌==◌, if◌then◌else◌, [], ◌∷◌}
use famfs.Meta.{LogFmap, LogFileMeta, ext_simple, ext_interleave}
use famfs.Meta.Fmap.{se, ie_nstrips, ie_chunk_size, ie_strips}
use famfs.Debug.{famfs_compare_log_file_meta}
use famfs.Debug.Laws.{SameFields, compare_simple_iff, compare_interleaved_iff}

abbrev with_fmap : LogFmap → LogFileMeta
with_fmap fmap = record {
  fm_size = 0x400000;
  fm_flags = 2;
  fm_uid = 0;
  fm_gid = 0;
  fm_mode = 0o644;
  fm_relpath = b'f' ∷ [];
  fm_fmap = fmap;
}

-- One extent, and the same one in front of a second.
abbrev extents : ℕ → LogFileMeta
extents n =
    with_fmap (record { fmap_ext_type = ext_simple; fmap_count = n; words = λ w. w * 0x200000 })

-- Two strips, of which the second is at `offset`.
abbrev strips : ℕ → LogFileMeta
strips offset = with_fmap (record {
  fmap_ext_type = ext_interleave;
  fmap_count = 1;
  words = λ w. if w == 0 then 2 else if w == 6 then offset else 0x200000;
})

compare_simple_iff_example : (famfs_compare_log_file_meta (extents 1) (extents 2) ≡ 0) ↔ (
    SameFields (extents 1) (extents 2)
    × (ext_simple ≡ ext_simple)
    × ((k : ℕ) → k < 1 → se (extents 1).fm_fmap k ≡ se (extents 2).fm_fmap k))
compare_simple_iff_example = compare_simple_iff (extents 1) (extents 2) refl

compare_interleaved_iff_example :
    (famfs_compare_log_file_meta (strips 0x600000) (strips 0xA00000) ≡ 0) ↔ (
      SameFields (strips 0x600000) (strips 0xA00000)
      × (ext_interleave ≡ ext_interleave)
      × (ie_nstrips (strips 0x600000).fm_fmap 0 ≡ ie_nstrips (strips 0xA00000).fm_fmap 0)
      × (ie_chunk_size (strips 0x600000).fm_fmap 0 ≡ ie_chunk_size (strips 0xA00000).fm_fmap 0)
      × (ie_strips (strips 0x600000).fm_fmap 0 0 ≡ ie_strips (strips 0xA00000).fm_fmap 0 0))
compare_interleaved_iff_example =
    compare_interleaved_iff (strips 0x600000) (strips 0xA00000) refl refl
