-- ===== src/Tests/Bits.antt =====
-- src/bitmap.h at small inputs.
use famfs.Prelude.{◌≡◌, refl, true, arith}
use famfs.Bitmap.{Bitmap, mu_bitmap_size, mu_bitmap_test, mu_bitmap_set}
use famfs.Bitmap.Laws.{IsBytes}

abbrev ones : Bitmap
ones = λ _. 255

ones-IsBytes : IsBytes ones
ones-IsBytes = record { in_byte = λ i. omega arith }

set_then_test : mu_bitmap_test (mu_bitmap_set (λ _. 0) 11) 11 ≡ true
unfolding mu_bitmap_test mu_bitmap_set
set_then_test = refl

bytes_for_bits : mu_bitmap_size 17 ≡ 3
unfolding mu_bitmap_size
bytes_for_bits = refl
