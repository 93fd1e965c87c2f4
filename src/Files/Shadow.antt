-- ===== src/Files/Shadow.antt =====
-- A file as its shadow file: `famfs_shadow_file_create` and `famfs_test_shadow_yaml` of
-- src/famfs_lib.c. What is printed is left out.
pub mod Laws
use famfs.Prelude.{
  ℕ, zero, suc, ◌+◌, Bool, true, false, ◌&&◌, not, Option, none, some, List, ◌==◌, if◌then◌else◌,
}
use famfs.Prelude.Lists.{list_eq}
use famfs.Meta.{Rc, LogFileMeta, LogStats, max_simple_extents}
use famfs.Host.{FileKind, directory, regular, special}
use famfs.Yaml.{Libyaml}
use famfs.Yaml.Emit.{famfs_emit_file_yaml}
use famfs.Yaml.Parse.File.{famfs_parse_shadow_yaml}
use famfs.Yaml.RoundTrip.{zeroed}

-- The calls on shadow files: `put` is what the emitter writes to a stream, and `reread` what a
-- parser gets from a stream after `rewind`.
pub record ShadowHost (y : Libyaml) : Type 1 where
  pub Disk : Type 0
  pub stat : Disk → List ℕ → Option FileKind
  pub open_old : Disk → List ℕ → Disk × Option ℕ
  pub open_new : Disk → List ℕ → Disk × Option ℕ
  pub fdopen : Disk → ℕ → Bool
  pub put : Disk → ℕ → y.State → Disk
  pub reread : Disk → ℕ → y.Text
  pub close : Disk → ℕ → Disk

-- The `left` words from i on are the same.
unfoldable pub same_words : ℕ → ℕ → (ℕ → ℕ) → (ℕ → ℕ) → Bool
same_words zero i w v = true
same_words (suc left) i w v = w i == v i && same_words left (i + 1) w v

-- `memcmp` of two structures, whose padding and bytes behind the path are zero in both. The union
-- has 50 words.
unfoldable pub same_meta : LogFileMeta → LogFileMeta → Bool
same_meta a b =
    a.fm_size == b.fm_size
    && a.fm_flags == b.fm_flags
    && a.fm_uid == b.fm_uid
    && a.fm_gid == b.fm_gid
    && a.fm_mode == b.fm_mode
    && list_eq a.fm_relpath b.fm_relpath
    && a.fm_fmap.fmap_ext_type == b.fm_fmap.fmap_ext_type
    && a.fm_fmap.fmap_count == b.fm_fmap.fmap_count
    && same_words 50 0 a.fm_fmap.words b.fm_fmap.words

-- `none` is the assertion that the file can be parsed.
unfoldable pub compare_readback : LogFileMeta → Rc × LogFileMeta → Option Rc
compare_readback fc (Rc.ok, readback) = some (if same_meta fc readback then Rc.ok else Rc.failed)
compare_readback fc (rc, readback) = none

module _ (y : Libyaml) (H : ShadowHost y) where
  open H use {Disk, stat, open_old, open_new, fdopen, put, reread, close}

  unfoldable pub famfs_test_shadow_yaml : Disk → ℕ → LogFileMeta → Option Rc
  famfs_test_shadow_yaml d fp fc =
      compare_readback fc
        (famfs_parse_shadow_yaml y (reread d fp) zeroed max_simple_extents max_simple_extents)

  pub record Created : Type 0 where
    pub disk : Disk
    pub ls : LogStats
    pub rc : Rc

  -- A stream whose descriptor is closed once more
  abbrev pub close_both : Disk → ℕ → Disk
  close_both d fd = close (close d fd) fd

  unfoldable pub tested : Disk → ℕ → LogStats → Option Rc → Option Created
  tested d fd ls none = none
  tested d fd ls (some Rc.ok) = some (record {
    disk = close_both d fd;
    ls = record ls { yaml_checked = ls.yaml_checked + 1 };
    rc = Rc.ok;
  })
  tested d fd ls (some rc) = some (record {
    disk = close_both d fd;
    ls = record ls {
      yaml_checked = ls.yaml_checked + 1;
      yaml_errs = ls.yaml_errs + 1;
      f_errs = ls.f_errs + 1;
    };
    rc = rc;
  })

  -- The end of the function, with `rc` from the writer where it is not tested.
  unfoldable pub finish_shadow : LogFileMeta → Bool → Disk → ℕ → LogStats → Rc → Option Created
  finish_shadow fc testmode d fd ls rc =
      if testmode
      then tested d fd ls (famfs_test_shadow_yaml d fd fc)
      else some (record { disk = close_both d fd; ls = ls; rc = rc })

  abbrev pub counted_error : Disk → LogStats → Option Created
  counted_error d ls =
      some (record { disk = d; ls = record ls { f_errs = ls.f_errs + 1 }; rc = Rc.failed })

  unfoldable pub test_old : LogFileMeta → LogStats → Disk × Option ℕ → Option Created
  test_old fc ls (d, none) = counted_error d ls
  test_old fc ls (d, some fd) =
      if fdopen d fd
      then finish_shadow fc true d fd ls Rc.ok
      else some (record { disk = close d fd; ls = ls; rc = Rc.failed })

  -- What the emitter wrote, and its result; `none` is its failed assertion.
  unfoldable pub written_shadow :
      LogFileMeta → Bool → LogStats → Disk → ℕ → Option (y.State × Bool) → Option Created
  written_shadow fc testmode ls d fd none = none
  written_shadow fc testmode ls d fd (some (s, ok)) =
      finish_shadow fc testmode (put d fd s) fd (record ls { f_created = ls.f_created + 1 })
        (if ok then Rc.ok else Rc.failed)

  unfoldable pub write_new : LogFileMeta → Bool → LogStats → Disk × Option ℕ → Option Created
  write_new fc testmode ls (d, none) = counted_error d ls
  write_new fc testmode ls (d, some fd) =
      if fdopen d fd
      then written_shadow fc testmode ls d fd (famfs_emit_file_yaml y fc)
      else some (record { disk = close d fd; ls = ls; rc = Rc.failed })

  -- The file is there already.
  unfoldable pub existing_shadow :
      List ℕ → LogFileMeta → Bool → LogStats → Disk → FileKind → Option Created
  existing_shadow path fc testmode ls d directory = counted_error d ls
  existing_shadow path fc testmode ls d special = counted_error d ls
  existing_shadow path fc testmode ls d regular =
      let counted = record ls { f_existed = ls.f_existed + 1 } in
      if testmode
      then test_old fc counted (open_old d path)
      else some (record { disk = d; ls = counted; rc = Rc.ok })

  -- Statistics are counted, as in a replay; __famfs_mkfile passes none.
  unfoldable pub famfs_shadow_file_create :
      List ℕ → LogFileMeta → LogStats → Bool → Bool → Disk → Option Created
  famfs_shadow_file_create path fc ls dry_run testmode d =
      if dry_run then some (record { disk = d; ls = ls; rc = Rc.ok }) else elim (stat d path) [
        | some kind ↦ existing_shadow path fc testmode ls d kind
        | none ↦ write_new fc testmode ls (open_new d path)
      ]
