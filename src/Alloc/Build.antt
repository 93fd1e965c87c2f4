-- ===== src/Alloc/Build.antt =====
-- `famfs_build_bitmap` of src/famfs_alloc.c: the bitmap of the space that the log gives out.
-- The bits of extents behind the end of the device are set behind the array of the code.
pub mod Owners
pub mod Extents
pub mod Growth
pub mod Laws
use famfs.Prelude.{
  ℕ, zero, suc, ◌+◌, ◌-◌, ◌*◌, ◌/◌, ◌%◌, Bool, true, false, not, ◌==◌, if◌then◌else◌, Option, none,
  some, ◌>>=◌, ◌>>◌, assert, bit_and, u64, through_int,
}
use famfs.Meta.{
  superblock_size, SimpleExtent, LogFmap, ext_simple, ext_interleave, LogFileMeta, LogMkdir,
  LogAddDaxdev, LogPayload, file, mkdir, add_daxdev, other, LogEntry, FamfsLog, Checksum, LogStats,
  no_stats,
}
use famfs.Meta.Fmap.{fmap_nextents, fmap_niext, se, ie_nstrips, ie_strips}
use famfs.Log.{famfs_validate_log_entry}
use famfs.Bitmap.{Bitmap}
use famfs.Alloc.Extent.{Marks, set_extent_in_bitmap}

-- The variables of `famfs_build_bitmap`. `none` is a failed assertion throughout.
pub record Build : Type 0 where
  pub bitmap : Bitmap
  pub errors : ℕ
  pub fsize_sum : ℕ
  pub alloc_sum : ℕ
  pub ls : LogStats

-- The errors of one extent pass through an `int`.
pub mark_extent : ℕ → SimpleExtent → Build → Option Build
mark_extent alloc_unit e b = do
  s ← set_extent_in_bitmap b.bitmap alloc_unit e.se_offset e.se_len b.alloc_sum
  some (record b {
    bitmap = s.bitmap;
    alloc_sum = s.alloc_sum;
    errors = u64 (b.errors + through_int s.errors);
  })

-- The loop of FAMFS_EXT_SIMPLE, with `left` extents from j on.
pub mark_simple : ℕ → LogFmap → ℕ → ℕ → Build → Option Build
mark_simple alloc_unit ext zero j b = some b
mark_simple alloc_unit ext (suc left) j b = do
  assert ((se ext j).se_offset % alloc_unit == 0)
  b' ← mark_extent alloc_unit (se ext j) b
  mark_simple alloc_unit ext left (j + 1) b'

-- The strips of the interleaved extent `ie[i]`, with `left` strips from k on.
pub mark_strips : ℕ → LogFmap → ℕ → ℕ → ℕ → Build → Option Build
mark_strips alloc_unit fmap i zero k b = some b
mark_strips alloc_unit fmap i (suc left) k b = do
  b' ← mark_extent alloc_unit (ie_strips fmap i k) b
  mark_strips alloc_unit fmap i left (k + 1) b'

-- The loop of FAMFS_EXT_INTERLEAVE: `stripes = &fmap->ie[j]` is indexed by j once more.
pub mark_interleaved : ℕ → LogFmap → ℕ → ℕ → Build → Option Build
mark_interleaved alloc_unit fmap zero j b = some b
mark_interleaved alloc_unit fmap (suc left) j b = do
  b' ← mark_strips alloc_unit fmap (j + j) (ie_nstrips fmap (j + j)) 0 b
  mark_interleaved alloc_unit fmap left (j + 1) b'

pub mark_fmap : ℕ → LogFmap → Build → Option Build
mark_fmap alloc_unit fmap b =
    if fmap.fmap_ext_type == ext_simple
    then mark_simple alloc_unit fmap (fmap_nextents fmap) 0 b
    else if fmap.fmap_ext_type == ext_interleave
    then mark_interleaved alloc_unit fmap (fmap_niext fmap) 0 b
    else some b

pub mark_payload : ℕ → LogPayload → Build → Option Build
mark_payload alloc_unit (file fm) b = mark_fmap alloc_unit fm.fm_fmap (record b {
  fsize_sum = u64 (b.fsize_sum + fm.fm_size);
  ls = record (b.ls) { f_logged = b.ls.f_logged + 1 };
})
mark_payload alloc_unit (mkdir md) b =
    some (record b { ls = record (b.ls) { d_logged = b.ls.d_logged + 1 } })
mark_payload alloc_unit (add_daxdev dd) b = some b
mark_payload alloc_unit (other t) b = some b

-- One round of the loop over the log.
pub mark_entry : Checksum → ℕ → LogEntry → ℕ → Build → Option Build
mark_entry sum alloc_unit le i b =
    let counted = record b { ls = record (b.ls) { n_entries = b.ls.n_entries + 1 } } in
    if not (famfs_validate_log_entry sum le le i == 0)
    then some
        (record counted { ls = record (counted.ls) { bad_entries = counted.ls.bad_entries + 1 } })
    else mark_payload alloc_unit le.payload counted

unfoldable pub mark_entries : Checksum → ℕ → (ℕ → LogEntry) → ℕ → ℕ → Build → Option Build
mark_entries sum alloc_unit entries zero i b = some b
mark_entries sum alloc_unit entries (suc left) i b = do
  b' ← mark_entry sum alloc_unit (entries i) i b
  mark_entries sum alloc_unit entries left (i + 1) b'

-- The errors of the superblock and the log are dropped.
unfoldable pub put_sb_log_into_bitmap : Bitmap → ℕ → ℕ → ℕ → Option Marks
put_sb_log_into_bitmap bitmap alloc_unit log_len alloc_sum =
    set_extent_in_bitmap bitmap alloc_unit 0 (u64 (superblock_size + log_len)) alloc_sum

-- What is returned, with the number of bits. (The memory is there.)
unfoldable pub famfs_build_bitmap : Checksum → FamfsLog → ℕ → ℕ → Option (Build × ℕ)
famfs_build_bitmap sum logp alloc_unit dev_size_in = do
  assert (not (alloc_unit == 0))
  assert (bit_and alloc_unit (alloc_unit - 1) == 0)
  s ← put_sb_log_into_bitmap (λ _. 0) alloc_unit logp.log_len 0
  b ← mark_entries sum alloc_unit logp.entries logp.next_index 0 (record {
    bitmap = s.bitmap;
    errors = 0;
    fsize_sum = 0;
    alloc_sum = s.alloc_sum;
    ls = no_stats;
  })
  some (b, u64 (dev_size_in + alloc_unit - 1) / alloc_unit)
