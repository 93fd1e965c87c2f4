-- ===== src/Meta/Fmap.antt =====
-- The arrays of `struct famfs_log_fmap` (src/famfs_meta.h): a simple extent is three words, an
-- interleaved extent a count, a chunk size and sixteen simple extents.
use famfs.Prelude.{ℕ, ◌+◌, ◌*◌}
use famfs.Meta.{LogFmap, SimpleExtent}

abbrev pub extent_at : (ℕ → ℕ) → ℕ → SimpleExtent
extent_at words a = record {
  se_devindex = words a;
  se_offset = words (a + 1);
  se_len = words (a + 2);
}

abbrev pub fmap_nextents : LogFmap → ℕ
fmap_nextents fm = fm.fmap_count

abbrev pub fmap_niext : LogFmap → ℕ
fmap_niext fm = fm.fmap_count

-- `fm->se[j]`
abbrev pub se : LogFmap → ℕ → SimpleExtent
se fm j = extent_at fm.words (3 * j)

-- `fm->ie[i].ie_nstrips`, `.ie_chunk_size` and `.ie_strips[k]`
abbrev pub ie_nstrips : LogFmap → ℕ → ℕ
ie_nstrips fm i = fm.words (50 * i)

abbrev pub ie_chunk_size : LogFmap → ℕ → ℕ
ie_chunk_size fm i = fm.words (50 * i + 1)

abbrev pub ie_strips : LogFmap → ℕ → ℕ → SimpleExtent
ie_strips fm i k = extent_at fm.words (50 * i + 2 + 3 * k)
