-- ===== src/Alloc/Contiguous/Scan.antt =====
-- The loops of `bitmap_alloc_contiguous`: what a free range is, and first fit.
use native.Mathlib.Decide.{dec_le}
use famfs.Prelude.{
  ℕ, zero, suc, ◌+◌, ◌^◌, ◌≤◌, ◌<◌, ◌≡◌, refl, ◌⊎◌, inl, inr, true, false, ◌||◌, not, some, u32,
  u64, sub64, arith, Bool-cases,
}
use famfs.Bitmap.{Bitmap, mu_bitmap_test, mse_bitmap_set32}
use famfs.Bitmap.Laws.{IsBytes, mse_bitmap_set32-Updates}
use famfs.Alloc.Extent.Laws.{in_range}
use famfs.Alloc.Contiguous.{range_free, set_range, scan}

-- The `n` bits from `k` on are clear.
pub record IsFree (m : Bitmap) (k n : ℕ) : Type 0 where
  pub clear : (j : ℕ) → k ≤ j → j < k + n → mu_bitmap_test m j ≡ false

pub range_free-IsFree : (m : Bitmap) (n k : ℕ) → range_free m n k ≡ true → IsFree m k n
unfolding range_free
range_free-IsFree m zero k h = record { clear = λ j lo hi. absurd (omega arith) }
range_free-IsFree m (suc n) k h = elim (Bool-cases (mu_bitmap_test m k)) [
  | inl e ↦ absurd (ground arith)
  | inr e ↦
      let rest = range_free-IsFree m n (k + 1) (ground arith) in
      record { clear = λ j lo hi. ground (arith, rest.clear j) }
]

pub IsFree-range_free : (m : Bitmap) (n k : ℕ) → IsFree m k n → range_free m n k ≡ true
unfolding range_free
IsFree-range_free m zero k f = refl
IsFree-range_free m (suc n) k f =
    let rest : IsFree m (k + 1) n = record {
      clear = λ j lo hi. f.clear j (omega arith) (omega arith);
    } in
    ground (arith, f.clear k (omega arith) (omega arith), IsFree-range_free m n (k + 1) rest)

-- Setting a range, below 2 ^ 32, sets its bits and no others.
pub set_range_bits :
    (n k : ℕ) (m : Bitmap)
    → IsBytes m
    → k + n ≤ 2 ^ 32
    → IsBytes (set_range m n k)
      × ((j : ℕ) → mu_bitmap_test (set_range m n k) j ≡ (in_range k n j || mu_bitmap_test m j))
unfolding set_range
set_range_bits zero k m h fits = (h, λ j. ground arith)
set_range_bits (suc n) k m h fits =
    let small : u32 k ≡ k = omega arith in
    let step = mse_bitmap_set32-Updates m k h in
    let (bytes, bits) = set_range_bits n (k + 1) (mse_bitmap_set32 m k) step.bytes (omega arith) in
    rw small (bytes, λ j. ground (arith, bits j, step.test j))

-- What a successful scan has found, started at `i`.
pub record Found (m : Bitmap) (start range n left i at : ℕ) : Type 0 where
  pub from : i ≤ at
  pub below : at < i + left
  pub free : IsFree m at n
  pub fits : n ≤ sub64 (u64 (start + range)) at
  pub first : (k : ℕ) → i ≤ k → k < at → (mu_bitmap_test m k ≡ true) ⊎ (range_free m n k ≡ false)

pub scan-Found :
    (m : Bitmap) (start range n left i : ℕ) {at : ℕ}
    → scan m start range n left i ≡ some at
    → Found m start range n left i at
unfolding scan
scan-Found m start range n zero i h = absurd (ground arith)
scan-Found m start range n (suc left) i {at} h = elim (Bool-cases (mu_bitmap_test m i)) [
  | inl set ↦ later (scan-Found m start range n left (i + 1) (ground arith)) (inl set)
  | inr clear ↦ elim (Bool-cases (range_free m n i)) [
    | inl free ↦
        let here : (i ≡ at) × (n ≤ sub64 (u64 (start + range)) i) = ground arith in
        let f = range_free-IsFree m n i free in
        record {
          from = omega arith;
          below = omega arith;
          free = rw (← here.0) f;
          fits = rw (← here.0) here.1;
          first = λ k lo hi. absurd (omega (arith, here.0));
        }
    | inr busy ↦ later (scan-Found m start range n left (i + 1) (ground arith)) (inr busy)
  ]
]
  where
    later :
        Found m start range n left (i + 1) at
        → (mu_bitmap_test m i ≡ true) ⊎ (range_free m n i ≡ false)
        → Found m start range n (suc left) i at
    later f skip = record {
      from = omega (arith, f.from);
      below = omega (arith, f.below);
      free = f.free;
      fits = f.fits;
      first = λ k lo hi. elim (dec_le (i + 1) k) [
        | yes p ↦ f.first k p hi
        | no p ↦ let e : k ≡ i = omega arith in rw e skip
      ];
    }

-- If the `n` bits from `k` on are free, within the bitmap and within the range, then the scan
-- succeeds, at `k` or before, and within the range.
pub scan_complete :
    (m : Bitmap) (start range n left i k : ℕ)
    → 0 < n
    → i ≤ k
    → k < i + left
    → k + n ≤ start + range
    → start + range < 2 ^ 64
    → IsFree m k n
    → (at : ℕ) × (scan m start range n left i ≡ some at) × (at ≤ k)
unfolding scan
scan_complete m start range n zero i k pos ik kl fits small f = absurd (omega arith)
scan_complete m start range n (suc left) i k pos ik kl fits small f = elim (dec_le (i + 1) k) [
  | yes p ↦
      let (at, e, le) =
        scan_complete m start range n left (i + 1) k pos p (omega arith) fits small f in
      elim (Bool-cases (mu_bitmap_test m i || not (range_free m n i))) [
        | inl skip ↦ (at, ground arith, le)
        | inr take_ ↦ (i, ground arith, omega arith)
      ]
  | no p ↦
      let e : k ≡ i = omega arith in
      let free : range_free m n i ≡ true = rw (← e) (IsFree-range_free m n k f) in
      let clear : mu_bitmap_test m i ≡ false = rw (← e) (f.clear k (omega arith) (omega arith)) in
      (i, ground arith, omega arith)
]
