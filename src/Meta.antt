-- ===== src/Meta.antt =====
-- src/famfs_meta.h: the structures of the log and the superblock, as they lie in memory.
pub mod Fmap
pub mod View
use famfs.Prelude.{ℕ, zero, suc, ◌+◌, ◌-◌, ◌*◌, ◌/◌, ◌%◌, ◌^◌, List, [], ◌∷◌, u64}

-- Results of functions that return an `int`: 0, -1 and the negative errnos that the code uses.
pub data Rc : Type 0 where
  ok failed einval enomem enospc erange eexist ebadf eoverflow : Rc

abbrev pub superblock_size : ℕ
superblock_size = 0x200000

abbrev pub alloc_unit_2m : ℕ
alloc_unit_2m = 0x200000

abbrev pub max_simple_extents : ℕ
max_simple_extents = 16

abbrev pub max_nbuckets : ℕ
max_nbuckets = 64

abbrev pub max_pathlen : ℕ
max_pathlen = 80

unfoldable pub round_size_to_alloc_unit : ℕ → ℕ
round_size_to_alloc_unit size = u64 (u64 (size + alloc_unit_2m - 1) / alloc_unit_2m * alloc_unit_2m)

pub record SimpleExtent : Type 0 where
  pub se_devindex : ℕ
  pub se_offset : ℕ
  pub se_len : ℕ

-- `struct famfs_log_fmap`. The two arms of its union begin with the same count, `fmap_nextents`
-- or `fmap_niext`; `words` is what follows, as 64-bit words, so that reading one arm's arrays
-- where the other was written gives what the C code gets.
pub record LogFmap : Type 0 where
  pub fmap_ext_type : ℕ
  pub fmap_count : ℕ
  pub words : ℕ → ℕ

abbrev pub ext_simple : ℕ
ext_simple = 0

abbrev pub ext_interleave : ℕ
ext_interleave = 1

pub record LogFileMeta : Type 0 where
  pub fm_size : ℕ
  pub fm_flags : ℕ
  pub fm_uid : ℕ
  pub fm_gid : ℕ
  pub fm_mode : ℕ
  pub fm_relpath : List ℕ
  pub fm_fmap : LogFmap

pub record LogMkdir : Type 0 where
  pub md_uid : ℕ
  pub md_gid : ℕ
  pub md_mode : ℕ
  pub md_relpath : List ℕ

pub record LogAddDaxdev : Type 0 where
  pub dd_size : ℕ
  pub dd_uuid : List ℕ
  pub dd_index : ℕ

-- `famfs_log_entry_type` with the member of the union that it selects; `other t` is any type that
-- carries none (FAMFS_LOG_DELETE, FAMFS_LOG_INVALID, garbage).
pub data LogPayload : Type 0 where
  file : LogFileMeta → LogPayload
  mkdir : LogMkdir → LogPayload
  add_daxdev : LogAddDaxdev → LogPayload
  other : ℕ → LogPayload

pub record LogEntry : Type 0 where
  pub seqnum : ℕ
  pub payload : LogPayload
  pub crc : ℕ

pub record FamfsLog : Type 0 where
  pub magic : ℕ
  pub log_len : ℕ
  pub last_index : ℕ
  pub header_crc : ℕ
  pub next_seqnum : ℕ
  pub next_index : ℕ
  pub entries : ℕ → LogEntry

abbrev pub log_magic : ℕ
log_magic = 0xbadcafef00d

-- The bytes of a little-endian integer of `w` bytes.
unfoldable pub le_bytes : ℕ → ℕ → List ℕ
le_bytes zero n = []
le_bytes (suc w) n = n % 256 ∷ le_bytes w (n / 256)

-- What comes from outside: zlib's `crc32`, and the compiler's layout of a log entry, as the bytes
-- in front of its crc.
pub record Checksum : Type 0 where
  pub crc32 : ℕ → List ℕ → ℕ
  pub entry_bytes : ℕ → LogPayload → List ℕ

-- `struct famfs_log_stats` (src/famfs_lib_internal.h)
pub record LogStats : Type 0 where
  pub n_entries : ℕ
  pub bad_entries : ℕ
  pub f_logged : ℕ
  pub f_existed : ℕ
  pub f_created : ℕ
  pub f_errs : ℕ
  pub d_logged : ℕ
  pub d_existed : ℕ
  pub d_created : ℕ
  pub d_errs : ℕ
  pub yaml_errs : ℕ
  pub yaml_checked : ℕ

abbrev pub no_stats : LogStats
no_stats = record {
  n_entries = 0;
  bad_entries = 0;
  f_logged = 0;
  f_existed = 0;
  f_created = 0;
  f_errs = 0;
  d_logged = 0;
  d_existed = 0;
  d_created = 0;
  d_errs = 0;
  yaml_errs = 0;
  yaml_checked = 0;
}
