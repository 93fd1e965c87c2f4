-- ===== src/Replay.antt =====
-- Playing the log into a mount: `__famfs_logplay` of src/famfs_lib.c, without a shadow root.
pub mod Entry
pub mod Same
pub mod Twice
pub mod Whole
use famfs.Prelude.{
  ℕ, zero, suc, ◌+◌, ◌%◌, ◌^◌, Bool, true, false, ◌||◌, not, ◌==◌, if◌then◌else◌, Option, none,
  some, ◌>>=◌, List,
}
use famfs.Meta.{
  Rc, ok, LogFileMeta, LogMkdir, LogPayload, file, mkdir, add_daxdev, other, LogEntry, FamfsLog,
  LogStats, no_stats, Checksum,
}
use famfs.Meta.Fmap.{fmap_nextents, se}
use famfs.Log.{
  famfs_log_entry_fc_path_is_relative, famfs_log_entry_md_path_is_relative,
  famfs_validate_log_header, famfs_validate_log_entry,
}
use famfs.Super.{SystemRole, master, client, nosuper, nodev}
use famfs.Host.{Posix, Stat, FileKind, directory}
use famfs.Files.Path.{join}
use famfs.Files.Create.{
  FdRc, fd, error, famfs_file_create_stub, famfs_v2_set_file_map, famfs_dir_create,
}
use famfs.Files.Mkfile.{is_dir}
use famfs.Files.Mkdir.{is_ok}

-- The file system and the statistics.
pub record Play (State : Type 0) : Type 0 where
  pub fs : State
  pub ls : LogStats

-- The arguments that stay the same, with the global `mock_path`.
pub record PlayArgs : Type 0 where
  pub mpt : List ℕ
  pub dry_run : Bool
  pub mock_path : Bool
  pub role : SystemRole

-- -1, or the number of errors as an `int`
pub data PlayRc : Type 0 where
  refused : PlayRc
  errors : ℕ → PlayRc

pub is_client : SystemRole → Bool
is_client client = true
is_client master = false
is_client nosuper = false
is_client nodev = false

unfoldable pub is_nosuper : SystemRole → Bool
is_nosuper nosuper = true
is_nosuper client = false
is_nosuper master = false
is_nosuper nodev = false

-- The `left` extents from j on that begin at offset 0.
pub zero_offsets : Bool → LogFileMeta → ℕ → ℕ → ℕ
zero_offsets mock_path fm zero j = 0
zero_offsets mock_path fm (suc left) j =
    (if (se fm.fm_fmap j).se_offset == 0 || mock_path then 1 else 0)
    + zero_offsets mock_path fm left (j + 1)

-- What `f_errs` and `skip_file` grow by.
pub file_problems : Bool → LogFileMeta → ℕ
file_problems mock_path fm =
    (if not (famfs_log_entry_fc_path_is_relative fm) || mock_path then 1 else 0)
    + zero_offsets mock_path fm (fmap_nextents fm.fm_fmap) 0

-- What `d_errs` and `skip_dir` grow by.
unfoldable pub dir_problems : Bool → LogMkdir → ℕ
dir_problems mock_path md =
    if not (famfs_log_entry_md_path_is_relative md) || mock_path then 1 else 0

module _ (P : Posix) (a : PlayArgs) where
  open P use {State, stat, close, unlink, realpath_buf}

  -- After the stub: a failure to set the map is not counted. `none`: its assertion failed.
  pub map_created : LogFileMeta → List ℕ → LogStats → State × FdRc → Option (Play State)
  map_created fm rpath ls (s, error rc) =
      some (record { fs = unlink s rpath; ls = record ls { f_errs = ls.f_errs + 1 } })
  map_created fm rpath ls (s, fd d) = do
    (s', rc) ← famfs_v2_set_file_map P s d fm.fm_size fm.fm_fmap
    some (record { fs = close s' d; ls = record ls { f_created = ls.f_created + 1 } })

  pub create_missing : LogFileMeta → List ℕ → Play State → Option (Play State)
  create_missing fm rpath p = elim (stat p.fs rpath) [
    | some st ↦ some (record p { ls = record (p.ls) { f_existed = p.ls.f_existed + 1 } })
    | none ↦
        map_created fm rpath p.ls
          (famfs_file_create_stub P p.fs rpath fm.fm_mode fm.fm_uid fm.fm_gid (is_client a.role))
  ]

  pub play_file : LogFileMeta → Play State → Option (Play State)
  play_file fm p =
      let n = file_problems a.mock_path fm in
      let counted : Play State = record p {
        ls = record (p.ls) { f_logged = p.ls.f_logged + 1; f_errs = p.ls.f_errs + n };
      } in
      if not (n == 0) || a.dry_run
      then some counted
      else create_missing fm (realpath_buf p.fs (join a.mpt fm.fm_relpath)) counted

  unfoldable pub existing_dir : FileKind → LogStats → LogStats
  existing_dir k ls =
      if is_dir k
      then record ls { d_existed = ls.d_existed + 1 }
      else record ls { d_errs = ls.d_errs + 1 }

  unfoldable pub made_dir : LogStats → State × Rc → Play State
  made_dir ls (s, rc) = record {
    fs = s;
    ls =
        if is_ok rc
        then record ls { d_created = ls.d_created + 1 }
        else record ls { d_errs = ls.d_errs + 1 };
  }

  unfoldable pub create_missing_dir : LogMkdir → List ℕ → Play State → Play State
  create_missing_dir md rpath p = elim (stat p.fs rpath) [
    | some st ↦ record p { ls = existing_dir st.st_kind p.ls }
    | none ↦
        made_dir p.ls (famfs_dir_create P p.fs a.mpt md.md_relpath md.md_mode md.md_uid md.md_gid)
  ]

  unfoldable pub play_dir : LogMkdir → Play State → Play State
  play_dir md p =
      let n = dir_problems a.mock_path md in
      let counted : Play State = record p {
        ls = record (p.ls) { d_logged = p.ls.d_logged + 1; d_errs = p.ls.d_errs + n };
      } in
      if not (n == 0) || a.dry_run
      then counted
      else create_missing_dir md (realpath_buf p.fs (join a.mpt md.md_relpath)) counted

  unfoldable pub play_entry : LogPayload → Play State → Option (Play State)
  play_entry (file fm) p = play_file fm p
  play_entry (mkdir md) p = some (play_dir md p)
  play_entry (add_daxdev dd) p = some p
  play_entry (other t) p = some p

  unfoldable pub counted_entry : Play State → Play State
  counted_entry p = record p { ls = record (p.ls) { n_entries = p.ls.n_entries + 1 } }

  -- The `left` entries from i on; with `false` the play stopped at an entry that is not valid.
  unfoldable pub play_entries :
      Checksum → (ℕ → LogEntry) → ℕ → ℕ → Play State → Option (Play State × Bool)
  play_entries sum entries zero i p = some (p, true)
  play_entries sum entries (suc left) i p =
      elim (famfs_validate_log_entry sum (entries i) (entries i) i == 0) [
        | false ↦ some (p, false)
        | true ↦
            play_entry (entries i).payload (counted_entry p)
            >>= play_entries sum entries left (i + 1)
      ]

  unfoldable pub play_result : Play State × Bool → Play State × PlayRc
  play_result (p, false) = (p, refused)
  play_result (p, true) = (p, errors ((p.ls.f_errs + p.ls.d_errs + p.ls.yaml_errs) % 2 ^ 32))

  -- What is left of the file system and the statistics, which are printed, and what is returned.
  unfoldable pub __famfs_logplay : Checksum → FamfsLog → State → Option (Play State × PlayRc)
  __famfs_logplay sum logp s =
      if is_nosuper a.role || not (is_ok (famfs_validate_log_header sum logp))
      then some (record { fs = s; ls = no_stats }, refused)
      else (do
        r ← play_entries sum logp.entries logp.next_index 0 (record { fs = s; ls = no_stats })
        some (play_result r))
