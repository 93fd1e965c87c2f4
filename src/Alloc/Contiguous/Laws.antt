-- ===== src/Alloc/Contiguous/Laws.antt =====
-- What `bitmap_alloc_contiguous` guarantees, and where it leaves its range.
use famfs.Prelude.{
  ℕ, zero, suc, ◌+◌, ◌-◌, ◌*◌, ◌/◌, ◌^◌, ◌≤◌, ◌<◌, ◌≡◌, refl, ◌⊎◌, inl, inr, true, false, ◌||◌,
  Option, none, some, u64, sub64, arith, Option-cases, minus_one,
}
use famfs.Bitmap.{Bitmap, mu_bitmap_test}
use famfs.Bitmap.Laws.{IsBytes}
use famfs.Alloc.Extent.{pages}
use famfs.Alloc.Extent.Laws.{in_range}
use famfs.Alloc.Contiguous.{
  range_free, set_range, scan, Allocation, range_bits, bitmap_alloc_contiguous,
}
use famfs.Alloc.Contiguous.Scan.{
  IsFree, IsFree-range_free, set_range_bits, scan-Found, scan_complete,
}

-- The outcome of an allocation of `n` bits at bit `i`.
pub record Allocated (m : Bitmap) (alloc_unit n i : ℕ) (a : Allocation) : Type 0 where
  pub offset : a.offset ≡ u64 (i * alloc_unit)
  pub was_free : IsFree m i n
  pub bytes : IsBytes a.bitmap
  pub bits : (j : ℕ) → mu_bitmap_test a.bitmap j ≡ (in_range i n j || mu_bitmap_test m j)
  pub cur_pos : a.cur_pos ≡ u64 ((i + n) * alloc_unit)

module _ (m : Bitmap) (start range n : ℕ) where
  scan_skip :
      (d left i : ℕ)
      → ((j : ℕ) → i ≤ j → j < i + d → mu_bitmap_test m j ≡ true)
      → scan m start range n (d + left) i ≡ scan m start range n left (i + d)
  unfolding scan
  scan_skip zero left i h =
      let a : 0 + left ≡ left = omega arith in let b : i + 0 ≡ i = omega arith in rw (a, b)
  scan_skip (suc d) left i h =
      let a : suc d + left ≡ suc (d + left) = omega arith in
      let b : i + suc d ≡ i + 1 + d = omega arith in
      let rest = scan_skip d left (i + 1) (λ j lo hi. h j (omega arith) (omega arith)) in
      rw (a, b) (ground (arith, rest, h i (omega arith) (omega arith)))

  scan_at :
      (left i : ℕ)
      → 0 < n
      → IsFree m i n
      → n ≤ sub64 (u64 (start + range)) i
      → scan m start range n (suc left) i ≡ some i
  unfolding scan
  scan_at left i pos f fits =
      ground (arith, f.clear i (omega arith) (omega arith), IsFree-range_free m n i f)

module _ (m : Bitmap) (nbits alloc_unit size cur_pos range_size : ℕ) (h : IsBytes m) where
  abbrev start : ℕ
  start = cur_pos / alloc_unit

  abbrev range : ℕ
  range = range_bits nbits alloc_unit range_size

  abbrev n : ℕ
  n = pages alloc_unit size

  abbrev result : Allocation
  result = bitmap_alloc_contiguous m nbits alloc_unit size cur_pos range_size

  abbrev found : Option ℕ
  found = scan m start range n (nbits - start) start

  alloc_none : found ≡ none → result ≡ record { offset = minus_one; bitmap = m; cur_pos = cur_pos }
  unfolding bitmap_alloc_contiguous
  alloc_none e = ground arith

  alloc_some :
      (i : ℕ)
      → found ≡ some i
      → result ≡ record {
        offset = u64 (i * alloc_unit);
        bitmap = set_range m n i;
        cur_pos = u64 ((i + n) * alloc_unit);
      }
  unfolding bitmap_alloc_contiguous
  alloc_some i e = ground arith

  found-Allocated :
      nbits + n ≤ 2 ^ 32 → (i : ℕ) → found ≡ some i → Allocated m alloc_unit n i result
  found-Allocated small i e =
      let f = scan-Found m start range n (nbits - start) start e in
      let set = set_range_bits n i m h (omega (arith, f.from, f.below)) in
      rw (alloc_some i e)
        (record { offset = refl; was_free = f.free; bytes = set.0; bits = set.1; cur_pos = refl })

  busy-not-IsFree :
      (k : ℕ) → 0 < n → (mu_bitmap_test m k ≡ true) ⊎ (range_free m n k ≡ false) → ¬ IsFree m k n
  busy-not-IsFree k pos busy f =
      ground (arith, f.clear k (omega arith) (omega arith), IsFree-range_free m n k f)

  -- For a size that is not zero and a bitmap of at most 2 ^ 32 bits, less those wanted: either the
  -- allocation fails, and then the bitmap and the position are unchanged; or it takes, from the
  -- starting bit on, the first place whose bits are all clear, sets exactly those bits, and returns
  -- their byte offset and the position behind them.
  pub alloc_outcome :
      0 < n
      → nbits + n ≤ 2 ^ 32
      → (result ≡ record { offset = minus_one; bitmap = m; cur_pos = cur_pos })
        ⊎ ((i : ℕ) × (start ≤ i)
            × (i < nbits)
            × Allocated m alloc_unit n i result
            × ((k : ℕ) → start ≤ k → k < i → ¬ IsFree m k n))
  alloc_outcome pos small = elim (Option-cases found) [
    | inl e ↦ inl (alloc_none e)
    | inr (i, e) ↦
        let f = scan-Found m start range n (nbits - start) start e in
        inr (
          i,
          f.from,
          omega (arith, f.from, f.below),
          found-Allocated small i e,
          λ k lo hi. busy-not-IsFree k pos (f.first k lo hi),
        )
  ]

  -- If some place within the range and the bitmap is free, then the allocation succeeds, at that
  -- place or before it.
  pub alloc_complete :
      (k : ℕ)
      → 0 < n
      → nbits + n ≤ 2 ^ 32
      → start ≤ k
      → k < nbits
      → k + n ≤ start + range
      → start + range < 2 ^ 64
      → IsFree m k n
      → (i : ℕ) × (start ≤ i) × (i ≤ k) × Allocated m alloc_unit n i result
  alloc_complete k pos small lo hi fits wide f =
      let (i, e, le) =
        scan_complete m start range n (nbits - start) start k pos lo (omega arith) fits wide f in
      let found_at = scan-Found m start range n (nbits - start) start e in
      (i, found_at.from, le, found-Allocated small i e)

  -- The range does not hold the allocation: when the range is full, the bit just behind it is set
  -- and the bits from the next one on are clear, then the remaining size wraps below zero and the
  -- allocation is made outside of the range.
  pub alloc_escapes :
      0 < n
      → nbits + n ≤ 2 ^ 32
      → start + range + 1 < nbits
      → ((j : ℕ) → start ≤ j → j ≤ start + range → mu_bitmap_test m j ≡ true)
      → IsFree m (start + range + 1) n
      → Allocated m alloc_unit n (start + range + 1) result
  alloc_escapes pos small below full f = found-Allocated small (start + range + 1) found_at
    where
      left : ℕ
      left = nbits - start - range - 2

      found_at : found ≡ some (start + range + 1)
      found_at =
          let split : nbits - start ≡ range + 1 + suc left = omega arith in
          let there : start + (range + 1) ≡ start + range + 1 = omega arith in
          rw
            (
              split,
              scan_skip m start range n (range + 1) (suc left) start
                  (λ j lo hi. full j lo (omega arith)),
              there,
            )
            (scan_at m start range n left (start + range + 1) pos f (omega arith))
