-- ===== src/Yaml/RoundTrip.antt =====
-- A shadow file that `famfs_emit_file_yaml` wrote is read back by `famfs_parse_shadow_yaml`
-- (src/famfs_yaml.c) as the same metadata. Here: the metadata of which this is shown.
pub mod Tails
pub mod Printable
pub mod Views
pub mod Exact
pub mod Whole
use famfs.Prelude.{ℕ, ◌^◌, ◌≤◌, ◌<◌, ◌≡◌, []}
use famfs.Prelude.Lists.{length}
use famfs.Meta.{LogFmap, LogFileMeta, ext_simple, ext_interleave, max_simple_extents}
use famfs.Meta.Fmap.{fmap_nextents, fmap_niext, se, ie_nstrips, ie_chunk_size, ie_strips}
use famfs.Yaml.Tree.{IsPrintable}
use famfs.Yaml.Parse.Extents.Laws.{FitsWord}

-- A map with extents, within the arrays of the structure: up to 16 simple extents, or the one
-- interleaved extent with up to 16 strips.
pub data IsMap (fm : LogFmap) : Type 0 where
  simple :
      fm.fmap_ext_type ≡ ext_simple
      → 1 ≤ fmap_nextents fm
      → fmap_nextents fm ≤ max_simple_extents
      → ((k : ℕ) → k < fmap_nextents fm → FitsWord (se fm k))
      → IsMap fm
  striped :
      fm.fmap_ext_type ≡ ext_interleave
      → fmap_niext fm ≡ 1
      → 1 ≤ ie_nstrips fm 0
      → ie_nstrips fm 0 ≤ max_simple_extents
      → ie_chunk_size fm 0 < 2 ^ 64
      → ((k : ℕ) → k < ie_nstrips fm 0 → FitsWord (ie_strips fm 0 k))
      → IsMap fm

-- Fields of their C types, a path that its buffer holds, and such a map
pub record IsStorable (fm : LogFileMeta) : Type 0 where
  pub size_fits : fm.fm_size < 2 ^ 64
  pub flags_fit : fm.fm_flags < 2 ^ 32
  pub uid_fits : fm.fm_uid < 2 ^ 32
  pub gid_fits : fm.fm_gid < 2 ^ 32
  pub mode_fits : fm.fm_mode < 2 ^ 32
  pub path_fits : length fm.fm_relpath ≤ 79
  pub path_printable : IsPrintable fm.fm_relpath
  pub has_map : IsMap fm.fm_fmap

-- The structure that the readers' callers pass
abbrev pub zeroed : LogFileMeta
zeroed = record {
  fm_size = 0;
  fm_flags = 0;
  fm_uid = 0;
  fm_gid = 0;
  fm_mode = 0;
  fm_relpath = [];
  fm_fmap = record { fmap_ext_type = 0; fmap_count = 0; words = λ a. 0 };
}
