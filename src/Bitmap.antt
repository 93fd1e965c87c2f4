-- ===== src/Bitmap.antt =====
-- src/bitmap.h: a bitmap is a `u8 *`, bit i being bit i % 8 of byte i / 8. Indices are the
-- non-negative ones, at which `>> 3` and `% 8` of an `s64` are division and remainder.
pub mod Bytes
pub mod Laws
use famfs.Prelude.{
  ℕ, ◌+◌, ◌-◌, ◌/◌, ◌%◌, ◌^◌, bit_and, bit_or, bit_xor, Bool, true, false, ◌==◌, not, if◌then◌else◌,
  store,
}

abbrev pub Bitmap : Type 0
Bitmap = ℕ → ℕ

-- The bytes that hold `num_blocks` bits.
unfoldable pub mu_bitmap_size : ℕ → ℕ
mu_bitmap_size num_blocks = (num_blocks + 8 - 1) / 8

-- `b & (1 << k)`, `b | (u8)(1 << k)` and `b & (0xff ^ (u8)(1 << k))` for k < 8
abbrev pub byte_test : ℕ → ℕ → Bool
byte_test b k = not (bit_and b (2 ^ k) == 0)

abbrev pub byte_set : ℕ → ℕ → ℕ
byte_set b k = bit_or b (2 ^ k % 256)

abbrev pub byte_clear : ℕ → ℕ → ℕ
byte_clear b k = bit_and b (bit_xor 0xff (2 ^ k % 256))

unfoldable pub mu_bitmap_test : Bitmap → ℕ → Bool
mu_bitmap_test bitmap index = byte_test (bitmap (index / 8)) (index % 8)

unfoldable pub mu_bitmap_set : Bitmap → ℕ → Bitmap
mu_bitmap_set bitmap index =
    let byte_num = index / 8 in
    let bit_num = index % 8 in store bitmap byte_num (byte_set (bitmap byte_num) bit_num)

-- `true` if the bit was not already set
unfoldable pub mu_bitmap_test_and_set : Bitmap → ℕ → Bitmap × Bool
mu_bitmap_test_and_set bitmap index =
    let byte_num = index / 8 in
    let bit_num = index % 8 in
    if byte_test (bitmap byte_num) bit_num
    then (bitmap, false)
    else (store bitmap byte_num (byte_set (bitmap byte_num) bit_num), true)

-- `true` if the bit was set
pub mu_bitmap_test_and_clear : Bitmap → ℕ → Bitmap × Bool
mu_bitmap_test_and_clear bitmap index =
    let byte_num = index / 8 in
    let bit_num = index % 8 in
    if not (byte_test (bitmap byte_num) bit_num)
    then (bitmap, false)
    else (store bitmap byte_num (byte_clear (bitmap byte_num) bit_num), true)

-- The same for a `u32` index.
pub mse_bitmap_set32 : Bitmap → ℕ → Bitmap
mse_bitmap_set32 bitmap index =
    let byte_num = index / 8 in
    let bit_num = index % 8 in store bitmap byte_num (byte_set (bitmap byte_num) bit_num)
