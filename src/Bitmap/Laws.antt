-- ===== src/Bitmap/Laws.antt =====
-- A bitmap of bytes is a set of bit numbers: each operation changes the bit that it names and no
-- other.
use Prim.Native.Nat.{bit_and-bitwise}
use famfs.Prelude.{
  bit_and, ◌^◌, ℕ, ◌<◌, ◌/◌, ◌%◌, ◌≡◌, Bool, true, false, ◌==◌, if◌then◌else◌, not, arith, store,
  Bool-cases, inl, inr,
}
use famfs.Bitmap.{
  Bitmap, byte_test, byte_set, byte_clear, mu_bitmap_test, mu_bitmap_set, mu_bitmap_test_and_set,
  mu_bitmap_test_and_clear, mse_bitmap_set32,
}
use famfs.Bitmap.Bytes.{byte_test-set, byte_test-clear, byte_set-lt, byte_clear-lt}

-- Every cell of the memory holds a `u8`.
pub record IsBytes (bitmap : Bitmap) : Type 0 where
  pub in_byte : (i : ℕ) → bitmap i < 256

store-IsBytes : (m : Bitmap) (i v : ℕ) → v < 256 → IsBytes m → IsBytes (store m i v)
store-IsBytes m i v hv h = record { in_byte = λ j. ground (arith, h.in_byte j) }

-- The bits of `m'` are those of `m`, but for bit `i`, which is `b`.
pub record Updates (m : Bitmap) (i : ℕ) (b : Bool) (m' : Bitmap) : Type 0 where
  pub bytes : IsBytes m'
  pub test : (j : ℕ) → mu_bitmap_test m' j ≡ (if i == j then b else mu_bitmap_test m j)

module _ (m : Bitmap) (i : ℕ) (h : IsBytes m) where
  store_set-Updates : Updates m i true (store m (i / 8) (byte_set (m (i / 8)) (i % 8)))
  unfolding mu_bitmap_test
  store_set-Updates = record {
    bytes =
        store-IsBytes m (i / 8) _
          (byte_set-lt (m (i / 8)) (i % 8) (h.in_byte (i / 8)) (omega arith)) h;
    test = λ j. ground (
      arith,
      byte_test-set (m (i / 8)) (i % 8) (j % 8) (h.in_byte (i / 8)) (omega arith) (omega arith),
    );
  }

  store_clear-Updates : Updates m i false (store m (i / 8) (byte_clear (m (i / 8)) (i % 8)))
  unfolding mu_bitmap_test
  store_clear-Updates = record {
    bytes =
        store-IsBytes m (i / 8) _
          (byte_clear-lt (m (i / 8)) (i % 8) (h.in_byte (i / 8)) (omega arith)) h;
    test = λ j. ground (
      arith,
      byte_test-clear (m (i / 8)) (i % 8) (j % 8) (h.in_byte (i / 8)) (omega arith) (omega arith),
    );
  }

  pub mu_bitmap_set-Updates : Updates m i true (mu_bitmap_set m i)
  unfolding mu_bitmap_set
  mu_bitmap_set-Updates = store_set-Updates

  pub mse_bitmap_set32-Updates : Updates m i true (mse_bitmap_set32 m i)
  unfolding mse_bitmap_set32
  mse_bitmap_set32-Updates = store_set-Updates

  same-Updates : {b : Bool} → mu_bitmap_test m i ≡ b → Updates m i b m
  same-Updates {b} e = record { bytes = h; test = λ j. ground arith }

  -- The bit is set afterwards and no other bit changes; the result says whether it was clear.
  pub mu_bitmap_test_and_set_lem :
      let (m', fresh) = mu_bitmap_test_and_set m i in
      Updates m i true m' × (fresh ≡ not (mu_bitmap_test m i))
  unfolding mu_bitmap_test_and_set
  mu_bitmap_test_and_set_lem = elim (Bool-cases (byte_test (m (i / 8)) (i % 8))) [
    | inl e ↦ rw e (same-Updates (unfold mu_bitmap_test in e), unfold mu_bitmap_test in rw e)
    | inr e ↦ rw e (store_set-Updates, unfold mu_bitmap_test in rw e)
  ]

  -- The bit is clear afterwards and no other bit changes; the result says whether it was set.
  pub mu_bitmap_test_and_clear_lem :
      let (m', was_set) = mu_bitmap_test_and_clear m i in
      Updates m i false m' × (was_set ≡ mu_bitmap_test m i)
  unfolding mu_bitmap_test_and_clear
  mu_bitmap_test_and_clear_lem = elim (Bool-cases (byte_test (m (i / 8)) (i % 8))) [
    | inl e ↦ rw e (store_clear-Updates, unfold mu_bitmap_test in rw e)
    | inr e ↦ rw e (same-Updates (unfold mu_bitmap_test in e), unfold mu_bitmap_test in rw e)
  ]

-- A zeroed bitmap has no bit set.
pub test-zero : (j : ℕ) → mu_bitmap_test (λ _. 0) j ≡ false
unfolding mu_bitmap_test
test-zero j =
    let z : bit_and 0 (2 ^ (j % 8)) ≡ 0 = bit_and-bitwise 0 (2 ^ (j % 8)) in ground (arith, z)
