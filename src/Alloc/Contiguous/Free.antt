-- ===== src/Alloc/Contiguous/Free.antt =====
-- `bitmap_free_contiguous` gives back what `bitmap_alloc_contiguous` took.
use famfs.Prelude.{
  ℕ, zero, suc, ◌+◌, ◌*◌, ◌/◌, ◌%◌, ◌^◌, ◌≤◌, ◌<◌, ◌≡◌, refl, true, false, if◌then◌else◌, Option,
  some, arith,
}
use famfs.Bitmap.{Bitmap, mu_bitmap_test, mu_bitmap_test_and_clear}
use famfs.Bitmap.Laws.{IsBytes, mu_bitmap_test_and_clear_lem}
use famfs.Alloc.Extent.{pages}
use famfs.Alloc.Extent.Laws.{in_range}
use famfs.Alloc.Contiguous.{clear_range, bitmap_free_contiguous, Allocation}
use famfs.Alloc.Contiguous.Laws.{Allocated}

-- The `n` bits from `k` on are set.
pub record IsSetRange (m : Bitmap) (k n : ℕ) : Type 0 where
  pub set : (j : ℕ) → k ≤ j → j < k + n → mu_bitmap_test m j ≡ true

-- `r` is a bitmap in which exactly those bits have been cleared.
pub record Cleared (m : Bitmap) (k n : ℕ) (r : Option Bitmap) : Type 0 where
  pub bitmap : Bitmap
  pub returns : r ≡ some bitmap
  pub bytes : IsBytes bitmap
  pub bits :
      (j : ℕ) → mu_bitmap_test bitmap j ≡ (if in_range k n j then false else mu_bitmap_test m j)

pub clear_range-Cleared :
    (n k : ℕ) (m : Bitmap) → IsBytes m → IsSetRange m k n → Cleared m k n (clear_range m n k)
unfolding clear_range
clear_range-Cleared zero k m h s = record {
  bitmap = m;
  returns = refl;
  bytes = h;
  bits = λ j. ground arith;
}
clear_range-Cleared (suc n) k m h s =
    let step = mu_bitmap_test_and_clear_lem m k h in
    let m' = (mu_bitmap_test_and_clear m k).0 in
    let set' : IsSetRange m' (k + 1) n = record {
      set = λ j lo hi. ground (arith, step.0.test j, s.set j);
    } in
    let rest = clear_range-Cleared n (k + 1) m' step.0.bytes set' in
    record {
      bitmap = rest.bitmap;
      returns = ground (arith, rest.returns, step.1, s.set k (omega arith) (omega arith));
      bytes = rest.bytes;
      bits = λ j. ground (arith, rest.bits j, step.0.test j);
    }

-- Freeing an aligned extent whose bits lie within the bitmap and are all set returns: it clears
-- exactly those bits.
pub free_lem :
    (m : Bitmap) (nbits alloc_unit offset len : ℕ)
    → IsBytes m
    → offset / alloc_unit + pages alloc_unit len ≤ nbits
    → offset % alloc_unit ≡ 0
    → IsSetRange m (offset / alloc_unit) (pages alloc_unit len)
    → Cleared m
        (offset / alloc_unit)
        (pages alloc_unit len)
        (bitmap_free_contiguous m nbits alloc_unit offset len)
unfolding bitmap_free_contiguous
free_lem m nbits alloc_unit offset len h fits aligned s =
    let r : bitmap_free_contiguous m nbits alloc_unit offset len
        ≡ clear_range m (pages alloc_unit len) (offset / alloc_unit) =
      ground arith in
    rw r (clear_range-Cleared (pages alloc_unit len) (offset / alloc_unit) m h s)

-- What is freed lies within the bitmap.
pub free_inside :
    (m : Bitmap) (nbits alloc_unit offset len : ℕ) (m' : Bitmap)
    → bitmap_free_contiguous m nbits alloc_unit offset len ≡ some m'
    → offset / alloc_unit + pages alloc_unit len ≤ nbits
unfolding bitmap_free_contiguous
free_inside m nbits alloc_unit offset len m' e = ground arith

pub mul_div : (i u : ℕ) → 0 < u → i * u / u ≡ i
mul_div i u h = grind arith

pub mul_mod : (i u : ℕ) → 0 < u → i * u % u ≡ 0
mul_mod i u h = grind arith

-- Freeing the extent of a successful allocation, where it lies within the bitmap and its end below
-- 2 ^ 64, returns a bitmap with the bits that were set before the allocation, and no others.
pub free-alloc :
    (m : Bitmap) (nbits alloc_unit size i : ℕ) (a : Allocation)
    → 0 < alloc_unit
    → Allocated m alloc_unit (pages alloc_unit size) i a
    → i + pages alloc_unit size ≤ nbits
    → i * alloc_unit < 2 ^ 64
    → (m' : Bitmap) × (bitmap_free_contiguous a.bitmap nbits alloc_unit a.offset size ≡ some m')
      × ((j : ℕ) → mu_bitmap_test m' j ≡ mu_bitmap_test m j)
free-alloc m nbits alloc_unit size i a pos al fits small =
    let n = pages alloc_unit size in
    let at : a.offset ≡ i * alloc_unit = omega (arith, al.offset) in
    let place : a.offset / alloc_unit ≡ i = rw at (mul_div i alloc_unit pos) in
    let aligned : a.offset % alloc_unit ≡ 0 = rw at (mul_mod i alloc_unit pos) in
    let all_set : IsSetRange a.bitmap (a.offset / alloc_unit) n =
      rw place (record { set = λ j lo hi. ground (arith, al.bits j) }) in
    let c =
      free_lem a.bitmap nbits alloc_unit a.offset size al.bytes (rw place fits) aligned all_set in
    (
      c.bitmap,
      c.returns,
      λ j. let inside = al.was_free.clear j in ground (arith, c.bits j, al.bits j, place, inside),
    )
