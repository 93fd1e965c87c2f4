-- ===== src/Log.antt =====
-- The metadata log (src/famfs_meta.h, src/famfs_lib.c): its header and entry checks, and the
-- functions that append to it.
pub mod Inv
pub mod View
use famfs.Prelude.{
  ℕ, zero, suc, ◌+◌, ◌-◌, ◌*◌, ◌%◌, ◌^◌, Bool, true, false, ◌&&◌, ◌||◌, not, ◌==◌, ltb, leb,
  if◌then◌else◌, Option, none, some, List, [], ◌∷◌, ◌++◌, u64, sub64, is_negative, store,
}
use famfs.Prelude.Lists.{take}
use famfs.Meta.{
  Rc, ok, failed, enomem, max_pathlen, LogFmap, LogFileMeta, LogMkdir, LogAddDaxdev, LogPayload,
  file, mkdir, add_daxdev, LogEntry, FamfsLog, log_magic, le_bytes, Checksum,
}
use famfs.Meta.Fmap.{fmap_nextents}

-- `none`: the assertion that the log holds at most `last_index + 1` entries failed.
pub log_slots_available : FamfsLog → Option ℕ
log_slots_available logp =
    let navail = u64 (sub64 logp.last_index logp.next_index + 1) in
    if is_negative navail then none else some navail

unfoldable pub famfs_log_full : FamfsLog → Bool
famfs_log_full logp = ltb logp.last_index logp.next_index

-- `strlen(path) >= 1 && path[0] != '/'`
unfoldable pub path_is_relative : List ℕ → Bool
path_is_relative [] = false
path_is_relative (c ∷ cs) = not (c == b'/')

pub famfs_log_entry_fc_path_is_relative : LogFileMeta → Bool
famfs_log_entry_fc_path_is_relative fc = path_is_relative fc.fm_relpath

unfoldable pub famfs_log_entry_md_path_is_relative : LogMkdir → Bool
famfs_log_entry_md_path_is_relative md = path_is_relative md.md_relpath

-- `relpath[0] != '/'`, which the empty string passes
unfoldable pub no_leading_slash : List ℕ → Bool
no_leading_slash [] = true
no_leading_slash (c ∷ cs) = not (c == b'/')

module _ (sum : Checksum) where
  open sum use {crc32, entry_bytes}

  unfoldable pub famfs_gen_log_header_crc : FamfsLog → ℕ
  famfs_gen_log_header_crc logp =
      crc32 (crc32 (crc32 (crc32 0 []) (le_bytes 8 logp.magic)) (le_bytes 8 logp.log_len))
        (le_bytes 8 logp.last_index)

  unfoldable pub famfs_gen_log_entry_crc : LogEntry → ℕ
  famfs_gen_log_entry_crc le = crc32 (crc32 0 []) (entry_bytes le.seqnum le.payload)

  unfoldable pub famfs_validate_log_header : FamfsLog → Rc
  famfs_validate_log_header logp =
      if not (logp.magic == log_magic)
      then failed
      else if not (logp.header_crc == famfs_gen_log_header_crc logp)
      then failed
      else ok

  -- One pass of the checks: the number of errors.
  unfoldable pub entry_errors : LogEntry → ℕ → ℕ
  entry_errors le index =
      (if le.seqnum == index then 0 else 1)
      + (if le.crc == famfs_gen_log_entry_crc le then 0 else 1)

  -- `cached` is what the processor cache shows of the entry, `fresh` what memory holds once the
  -- cache is invalidated: the entry is read again if the first look finds errors.
  unfoldable pub famfs_validate_log_entry : LogEntry → LogEntry → ℕ → ℕ
  famfs_validate_log_entry cached fresh index =
      let errors = entry_errors cached index in
      if not (errors == 0) then entry_errors fresh index else errors

  -- The caller's entry has no seqnum and no crc yet.
  unfoldable pub famfs_append_log : FamfsLog → LogPayload → FamfsLog × Rc
  famfs_append_log logp e =
      let unsigned : LogEntry = record { seqnum = logp.next_seqnum; payload = e; crc = 0 } in
      let signed : LogEntry = record {
        seqnum = logp.next_seqnum;
        payload = e;
        crc = famfs_gen_log_entry_crc unsigned;
      } in
      (
        record logp {
          entries = store logp.entries logp.next_index signed;
          next_seqnum = u64 (logp.next_seqnum + 1);
          next_index = u64 (logp.next_index + 1);
        },
        ok,
      )

  -- `none`: an assertion on the arguments failed.
  unfoldable pub famfs_log_file_creation :
      FamfsLog → LogFmap → List ℕ → ℕ → ℕ → ℕ → ℕ → Option (FamfsLog × Rc)
  famfs_log_file_creation logp fmap relpath mode uid gid size =
      if not (leb 1 (fmap_nextents fmap) && no_leading_slash relpath)
      then none
      else if famfs_log_full logp
      then some (logp, enomem)
      else some (
          famfs_append_log logp (
            file (record {
              fm_size = size;
              fm_flags = 2;
              fm_uid = uid;
              fm_gid = gid;
              fm_mode = mode;
              fm_relpath = take (max_pathlen - 1) relpath;
              fm_fmap = fmap;
            })))

  pub famfs_log_dir_creation : FamfsLog → List ℕ → ℕ → ℕ → ℕ → Option (FamfsLog × Rc)
  famfs_log_dir_creation logp relpath mode uid gid =
      if not (no_leading_slash relpath)
      then none
      else if famfs_log_full logp
      then some (logp, enomem)
      else some (
          famfs_append_log logp (
            mkdir (record {
              md_uid = uid;
              md_gid = gid;
              md_mode = mode;
              md_relpath = take (max_pathlen - 1) relpath;
            })))

  pub famfs_add_daxdev : FamfsLog → ℕ → List ℕ → ℕ → FamfsLog × Rc
  famfs_add_daxdev logp dd_size dd_uuid dd_index =
      if famfs_log_full logp
      then (logp, enomem)
      else famfs_append_log logp
          (add_daxdev (record { dd_size = dd_size; dd_uuid = dd_uuid; dd_index = dd_index }))
