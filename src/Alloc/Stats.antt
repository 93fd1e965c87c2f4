-- ===== src/Alloc/Stats.antt =====
-- `mu_bitmap_range_stats` of src/famfs_alloc.c: what fsck reports of a range of the bitmap.
pub mod Laws
use famfs.Prelude.{
  ℕ, zero, suc, ◌+◌, ◌-◌, ◌%◌, Bool, true, false, not, if◌then◌else◌, u64, sub64, min, max,
}
use famfs.Bitmap.{Bitmap, mu_bitmap_test}

pub record BitmapStats : Type 0 where
  pub size : ℕ
  pub bits_inuse : ℕ
  pub bits_free : ℕ
  pub fragments_free : ℕ
  pub largest_free_section : ℕ
  pub smallest_free_section : ℕ

-- The loop's variables: `*bs`, `prev_bit_free` and `free_ct`.
pub record Scanning : Type 0 where
  pub stats : BitmapStats
  pub prev_bit_free : Bool
  pub free_ct : ℕ

pub end_section : Scanning → BitmapStats
end_section s =
    if s.prev_bit_free
    then record (s.stats) {
      smallest_free_section = min s.free_ct s.stats.smallest_free_section;
      largest_free_section = max s.free_ct s.stats.largest_free_section;
    }
    else s.stats

pub scan_used : Scanning → Scanning
unfolding end_section
scan_used s =
    let bs = end_section s in
    record {
      stats = record bs { bits_inuse = u64 (u64 (bs.bits_inuse + 1) + 1) };
      prev_bit_free = false;
      free_ct = s.free_ct;
    }

pub scan_free : Scanning → Scanning
scan_free s =
    let bs = s.stats in
    record {
      stats = record bs {
        fragments_free = if s.prev_bit_free then bs.fragments_free else u64 (bs.fragments_free + 1);
        bits_free = u64 (bs.bits_free + 1);
      };
      prev_bit_free = true;
      free_ct = u64 (s.free_ct + 1);
    }

-- The loop over `left` bits from bit `i` on.
pub scan_bits : Bitmap → ℕ → ℕ → Scanning → Scanning
scan_bits bitmap zero i s = s
scan_bits bitmap (suc left) i s =
    scan_bits bitmap left (i + 1) (if mu_bitmap_test bitmap i then scan_used s else scan_free s)

abbrev pub fresh_scan : ℕ → Scanning
fresh_scan size = record {
  stats = record {
    size = size;
    bits_inuse = 0;
    bits_free = 0;
    fragments_free = 0;
    largest_free_section = 0;
    smallest_free_section = 0;
  };
  prev_bit_free = false;
  free_ct = 0;
}

pub mu_bitmap_range_stats : Bitmap → ℕ → ℕ → BitmapStats
mu_bitmap_range_stats bitmap start end_ =
    end_section (scan_bits bitmap (end_ - start) start (fresh_scan (sub64 end_ start)))
