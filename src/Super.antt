-- ===== src/Super.antt =====
-- The superblock (src/famfs_meta.h) and the functions of src/famfs_lib.c that check it, decide the
-- role of this host, and make a file system.
pub mod Laws
use famfs.Prelude.{
  ℕ, ◌+◌, ◌-◌, ◌*◌, ◌/◌, ◌^◌, Bool, true, false, ◌&&◌, ◌||◌, not, ◌==◌, ltb, if◌then◌else◌, Option,
  none, some, List, [], ◌∷◌, u64, sub64,
}
use famfs.Prelude.Lists.{take, list_eq}
use famfs.Meta.{
  Rc, ok, failed, superblock_size, alloc_unit_2m, LogEntry, file, FamfsLog, log_magic, le_bytes,
  Checksum,
}
use famfs.Log.{famfs_gen_log_header_crc}

pub record Daxdev : Type 0 where
  pub dd_size : ℕ
  pub dd_uuid : List ℕ
  pub dd_daxdev : List ℕ

pub record Superblock : Type 0 where
  pub ts_magic : ℕ
  pub ts_version : ℕ
  pub ts_log_offset : ℕ
  pub ts_log_len : ℕ
  pub ts_alloc_unit : ℕ
  pub ts_omf_ver_major : ℕ
  pub ts_omf_ver_minor : ℕ
  pub ts_uuid : List ℕ
  pub ts_dev_uuid : List ℕ
  pub ts_system_uuid : List ℕ
  pub ts_crc : ℕ
  pub ts_sb_flags : ℕ
  pub ts_daxdev : Daxdev

abbrev pub super_magic : ℕ
super_magic = 0x87b282ff

abbrev pub current_version : ℕ
current_version = 48

-- `enum famfs_system_role`
pub data SystemRole : Type 0 where
  master client nosuper nodev : SystemRole

-- The results 0, 1 and -1 of `famfs_check_super`.
pub data SuperCheck : Type 0 where
  good wrong_version bad : SuperCheck

-- sizeof(struct famfs_log) and sizeof(struct famfs_log_entry) on x86-64
abbrev pub log_header_size : ℕ
log_header_size = 48

abbrev pub log_entry_size : ℕ
log_entry_size = 544

module _ (sum : Checksum) where
  open sum use {crc32}

  pub famfs_gen_superblock_crc : Superblock → ℕ
  famfs_gen_superblock_crc sb =
      let c0 = crc32 (crc32 0 []) (le_bytes 8 sb.ts_magic) in
      let c1 = crc32 c0 (le_bytes 8 sb.ts_version) in
      let c2 = crc32 c1 (le_bytes 8 sb.ts_log_offset) in
      let c3 = crc32 c2 (le_bytes 8 sb.ts_log_len) in
      let c4 = crc32 c3 (le_bytes 8 sb.ts_alloc_unit) in
      let c5 = crc32 c4 (le_bytes 4 sb.ts_omf_ver_major) in
      let c6 = crc32 c5 (le_bytes 4 sb.ts_omf_ver_minor) in
      crc32 (crc32 (crc32 c6 sb.ts_uuid) sb.ts_dev_uuid) sb.ts_system_uuid

  -- With `good` come the log's offset and length, for the pointers that are not null.
  unfoldable pub famfs_check_super : Option Superblock → SuperCheck × Option (ℕ × ℕ)
  famfs_check_super none = (bad, none)
  famfs_check_super (some sb) =
      if not (sb.ts_magic == super_magic)
      then (bad, none)
      else if not (sb.ts_version == current_version)
      then (wrong_version, none)
      else if not (sb.ts_crc == famfs_gen_superblock_crc sb)
      then (bad, none)
      else if not (sb.ts_alloc_unit == 4096) && not (sb.ts_alloc_unit == 0x200000)
      then (bad, none)
      else (good, some (sb.ts_log_offset, sb.ts_log_len))

  -- `my_uuid` is what `famfs_get_system_uuid` found, `none` if it failed.
  pub famfs_get_role : Option (List ℕ) → Superblock → SystemRole
  famfs_get_role none sb = client
  famfs_get_role (some my_uuid) sb = elim ((famfs_check_super (some sb)).0) [
    | good ↦ if list_eq my_uuid sb.ts_system_uuid then master else client
    | _ ↦ nosuper
  ]

  pub famfs_kill_superblock : Superblock → Superblock
  famfs_kill_superblock sb = record sb { ts_magic = 0 }

  -- What `memset` leaves: type 0 is FAMFS_LOG_FILE.
  abbrev zero_entry : LogEntry
  zero_entry = record {
    seqnum = 0;
    payload = file (record {
      fm_size = 0;
      fm_flags = 0;
      fm_uid = 0;
      fm_gid = 0;
      fm_mode = 0;
      fm_relpath = [];
      fm_fmap = record { fmap_ext_type = 0; fmap_count = 0; words = λ _. 0 };
    });
    crc = 0;
  }

  -- The superblock that `__famfs_mkfs` writes over `sb`.
  unfoldable pub new_superblock :
      List ℕ → Superblock → ℕ → ℕ → List ℕ → List ℕ → List ℕ → Superblock
  new_superblock daxdev sb log_len device_size system_uuid fs_uuid dev_uuid =
      let fields = record sb {
        ts_system_uuid = system_uuid;
        ts_magic = super_magic;
        ts_version = current_version;
        ts_log_offset = 0x200000;
        ts_log_len = log_len;
        ts_alloc_unit = alloc_unit_2m;
        ts_omf_ver_major = 2;
        ts_omf_ver_minor = 2;
        ts_uuid = fs_uuid;
        ts_dev_uuid = dev_uuid;
        ts_daxdev = record (sb.ts_daxdev) { dd_size = device_size; dd_daxdev = take 64 daxdev };
      } in
      record fields { ts_crc = famfs_gen_superblock_crc fields }

  -- The empty log that `__famfs_mkfs` writes.
  unfoldable pub new_log : ℕ → FamfsLog
  new_log log_len =
      let fields : FamfsLog = record {
        magic = log_magic;
        log_len = log_len;
        last_index = sub64 (sub64 log_len log_header_size / log_entry_size) 1;
        header_crc = 0;
        next_seqnum = 0;
        next_index = 0;
        entries = λ _. zero_entry;
      } in
      record fields { header_crc = famfs_gen_log_header_crc sum fields }

  -- `__famfs_mkfs`. The three uuids come from the system file and from libuuid.
  pub famfs_mkfs :
      List ℕ
      → Superblock
      → FamfsLog
      → ℕ
      → ℕ
      → Bool
      → Bool
      → Option (List ℕ)
      → List ℕ
      → List ℕ
      → Rc × Superblock × FamfsLog
  famfs_mkfs daxdev sb logp log_len device_size force kill system_uuid fs_uuid dev_uuid =
      if kill && force
      then (ok, famfs_kill_superblock sb, logp)
      else elim ((famfs_check_super (some sb)).0) [
        | bad ↦ write_fs
        | _ ↦ if not force then (failed, sb, logp) else write_fs
      ]
    where
      write_with : List ℕ → Rc × Superblock × FamfsLog
      write_with uuid =
          (ok, new_superblock daxdev sb log_len device_size uuid fs_uuid dev_uuid, new_log log_len)

      write_fs : Rc × Superblock × FamfsLog
      write_fs = elim system_uuid [ none ↦ (failed, sb, logp) | some uuid ↦ write_with uuid ]

  -- `devsize` is what `famfs_get_device_size` found; with `some` the device may be formatted.
  pub famfs_mkfs_allowed : SystemRole → Bool → Option ℕ → Option ℕ
  famfs_mkfs_allowed client false devsize = none
  famfs_mkfs_allowed nodev force devsize = none
  famfs_mkfs_allowed role force none = none
  famfs_mkfs_allowed role force (some devsize) =
      if ltb devsize (4 * 1024 * 1024 * 1024) then none else some devsize
