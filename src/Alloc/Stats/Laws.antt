-- ===== src/Alloc/Stats/Laws.antt =====
-- What the figures of `mu_bitmap_range_stats` are.
use famfs.Prelude.{
  ℕ, zero, suc, ◌+◌, ◌-◌, ◌*◌, ◌^◌, ◌≤◌, ◌<◌, ◌≡◌, true, sub64, arith, Bool-cases, inl, inr, ◌⊎◌,
}
use famfs.Bitmap.{Bitmap, mu_bitmap_test}
use famfs.Alloc.Extent.Laws.{count_set, count_clear}
use famfs.Alloc.Stats.{
  Scanning, end_section, scan_used, scan_free, scan_bits, fresh_scan, mu_bitmap_range_stats,
}

-- The loop's figures after `c` clear and `u` set bits.
record Counted (c u : ℕ) (s : Scanning) : Type 0 where
  free_ct : s.free_ct ≡ c
  free : s.stats.bits_free ≡ c
  inuse : s.stats.bits_inuse ≡ 2 * u
  smallest : s.stats.smallest_free_section ≡ 0
  largest : (s.prev_bit_free ≡ true) ⊎ (s.stats.largest_free_section ≡ c)
  below : s.stats.largest_free_section ≤ c

module _ (s : Scanning) (c u : ℕ) (h : Counted c u s) (small : c + u < 2 ^ 63 - 1) where
  used-Counted : Counted c (u + 1) (scan_used s)
  unfolding scan_used
  used-Counted = ground arith

  free-Counted : Counted (c + 1) u (scan_free s)
  unfolding scan_free
  free-Counted = ground arith

scan_bits-Counted :
    (m : Bitmap) (left i c u : ℕ) (s : Scanning)
    → Counted c u s
    → c + u + left < 2 ^ 63
    → Counted (c + count_clear m i left) (u + count_set m i left) (scan_bits m left i s)
unfolding scan_bits count_set count_clear
scan_bits-Counted m zero i c u s h small =
    let a : c + 0 ≡ c = omega arith in let b : u + 0 ≡ u = omega arith in rw (a, b) h
scan_bits-Counted m (suc left) i c u s h small = elim (Bool-cases (mu_bitmap_test m i)) [
  | inl e ↦
      let a : c + (0 + count_clear m (i + 1) left) ≡ c + count_clear m (i + 1) left = omega arith in
      let b : u + (1 + count_set m (i + 1) left) ≡ u + 1 + count_set m (i + 1) left = omega arith in
      let used = used-Counted s c u h (omega arith) in
      rw (e, a, b) (scan_bits-Counted m left (i + 1) c (u + 1) (scan_used s) used (omega arith))
  | inr e ↦
      let a : c + (1 + count_clear m (i + 1) left) ≡ c + 1 + count_clear m (i + 1) left =
        omega arith in
      let b : u + (0 + count_set m (i + 1) left) ≡ u + count_set m (i + 1) left = omega arith in
      let free = free-Counted s c u h (omega arith) in
      rw (e, a, b) (scan_bits-Counted m left (i + 1) (c + 1) u (scan_free s) free (omega arith))
]

end_section-Counted :
    (c u : ℕ) (s : Scanning)
    → Counted c u s
    → let bs = end_section s in
      (bs.bits_free ≡ c)
      × (bs.bits_inuse ≡ 2 * u)
      × (bs.smallest_free_section ≡ 0)
      × (bs.largest_free_section ≡ c)
unfolding end_section
end_section-Counted c u s h = ground arith

-- Of a range of fewer than 2 ^ 63 bits the free bits are counted right; but the bits in use are
-- twice those that are set, the smallest free section is zero and the largest is the number of all
-- free bits, however they lie.
pub range_stats_lem :
    (m : Bitmap) (start end_ : ℕ)
    → end_ - start < 2 ^ 63
    → let bs = mu_bitmap_range_stats m start end_ in
      (bs.bits_free ≡ count_clear m start (end_ - start))
      × (bs.bits_inuse ≡ 2 * count_set m start (end_ - start))
      × (bs.smallest_free_section ≡ 0)
      × (bs.largest_free_section ≡ count_clear m start (end_ - start))
unfolding mu_bitmap_range_stats
range_stats_lem m start end_ small =
    let c = count_clear m start (end_ - start) in
    let u = count_set m start (end_ - start) in
    let from : Scanning = fresh_scan (sub64 end_ start) in
    let counted = scan_bits-Counted m (end_ - start) start 0 0 from (ground arith) (omega arith) in
    let f = end_section-Counted (0 + c) (0 + u) (scan_bits m (end_ - start) start from) counted in
    (omega (arith, f.0), omega (arith, f.1), f.2, omega (arith, f.3))
