-- ===== src/Yaml/Stat.antt =====
-- `famfs_shadow_to_stat` of src/famfs_yaml.c, with which the fuse daemon reads a shadow file.
pub mod Laws
use famfs.Prelude.{ℕ, Option, none, some, bit_or}
use famfs.Meta.{Rc, LogFileMeta, max_simple_extents}
use famfs.Yaml.{Libyaml}
use famfs.Yaml.Parse.File.{famfs_parse_shadow_yaml}
use famfs.Yaml.RoundTrip.{zeroed}

-- The fields of `struct stat` that are set
pub record FileStat : Type 0 where
  pub st_dev : ℕ
  pub st_rdev : ℕ
  pub st_blksize : ℕ
  pub st_blocks : ℕ
  pub st_atime : ℕ
  pub st_mtime : ℕ
  pub st_ctime : ℕ
  pub st_ino : ℕ
  pub st_mode : ℕ
  pub st_uid : ℕ
  pub st_gid : ℕ
  pub st_size : ℕ

-- `S_IFREG`
abbrev pub regular_bit : ℕ
regular_bit = 0x8000

-- What is filled in from the shadow file's own stat and from its yaml.
unfoldable pub stat_of : FileStat → LogFileMeta → FileStat
stat_of shadow fm = record shadow {
  st_mode = bit_or fm.fm_mode regular_bit;
  st_uid = fm.fm_uid;
  st_gid = fm.fm_gid;
  st_size = fm.fm_size;
}

unfoldable pub after_parse :
    FileStat → FileStat × LogFileMeta → Rc × LogFileMeta → Rc × (FileStat × LogFileMeta)
after_parse shadow out (Rc.ok, fm) = (Rc.ok, (stat_of shadow fm, fm))
after_parse shadow out (rc, fm) = (rc, out)

-- `stream` is what `fmemopen` makes of the buffer; `out` is what the two results point to.
module _ (y : Libyaml) where
  unfoldable pub famfs_shadow_to_stat :
      Option y.Text → FileStat → FileStat × LogFileMeta → Rc × (FileStat × LogFileMeta)
  famfs_shadow_to_stat none shadow out = (Rc.failed, out)
  famfs_shadow_to_stat (some file) shadow out =
      after_parse shadow out
        (famfs_parse_shadow_yaml y file zeroed max_simple_extents max_simple_extents)
