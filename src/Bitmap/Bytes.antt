-- ===== src/Bitmap/Bytes.antt =====
-- Setting and clearing one bit of a byte, by a table of all bytes and bits.
use famfs.Prelude.{
  ℕ, zero, suc, ◌<◌, ◌≡◌, refl, ◌&&◌, Bool, true, false, ◌==◌, ltb, ltb→lt, not, if◌then◌else◌,
  arith,
}
use famfs.Bitmap.{byte_test, byte_set, byte_clear}

all_below : ℕ → (ℕ → Bool) → Bool
all_below zero p = true
all_below (suc n) p = p n && all_below n p

all_below_sound : (n : ℕ) (p : ℕ → Bool) → all_below n p ≡ true → (x : ℕ) → x < n → p x ≡ true
unfolding all_below
all_below_sound zero p h x lt = absurd (omega arith)
all_below_sound (suc n) p h x lt = ground (arith, all_below_sound n p (ground arith) x)

agree : Bool → Bool → Bool
agree true b = b
agree false b = not b

agree_sound : (a b : Bool) → agree a b ≡ true → a ≡ b
unfolding agree
agree_sound a b h = ground arith

all_bytes_bits : (ℕ → ℕ → ℕ → Bool) → Bool
all_bytes_bits p = all_below 256 (λ b. all_below 8 (λ k. all_below 8 (λ l. p b k l)))

all_bytes_bits_sound :
    (p : ℕ → ℕ → ℕ → Bool)
    → all_bytes_bits p ≡ true
    → (b k l : ℕ) → b < 256
    → k < 8
    → l < 8
    → p b k l ≡ true
unfolding all_bytes_bits
all_bytes_bits_sound p h b k l hb hk hl =
    let at_byte = all_below_sound 256 (λ b. all_below 8 (λ k. all_below 8 (λ l. p b k l))) h b hb in
    let at_bit = all_below_sound 8 (λ k. all_below 8 (λ l. p b k l)) at_byte k hk in
    all_below_sound 8 (λ l. p b k l) at_bit l hl

set_table :
    all_bytes_bits
      (λ b k l. agree (byte_test (byte_set b k) l) (if k == l then true else byte_test b l))
    ≡ true
unfolding all_bytes_bits all_below agree
set_table = refl

clear_table :
    all_bytes_bits
      (λ b k l. agree (byte_test (byte_clear b k) l) (if k == l then false else byte_test b l))
    ≡ true
unfolding all_bytes_bits all_below agree
clear_table = refl

range_table : all_bytes_bits (λ b k l. ltb (byte_set b k) 256 && ltb (byte_clear b k) 256) ≡ true
unfolding all_bytes_bits all_below
range_table = refl

module _ (b k l : ℕ) (hb : b < 256) (hk : k < 8) (hl : l < 8) where
  pub byte_test-set : byte_test (byte_set b k) l ≡ (if k == l then true else byte_test b l)
  byte_test-set = agree_sound _ _ (
      all_bytes_bits_sound
        (λ b k l. agree (byte_test (byte_set b k) l) (if k == l then true else byte_test b l))
        set_table b k l hb hk hl)

  pub byte_test-clear : byte_test (byte_clear b k) l ≡ (if k == l then false else byte_test b l)
  byte_test-clear = agree_sound _ _ (
      all_bytes_bits_sound
        (λ b k l. agree (byte_test (byte_clear b k) l) (if k == l then false else byte_test b l))
        clear_table b k l hb hk hl)

  byte_range : (ltb (byte_set b k) 256 && ltb (byte_clear b k) 256) ≡ true
  byte_range =
      all_bytes_bits_sound (λ b k l. ltb (byte_set b k) 256 && ltb (byte_clear b k) 256) range_table
        b k l hb hk hl

and_true_left : (a b : Bool) → (a && b) ≡ true → a ≡ true
and_true_left a b h = ground arith

and_true_right : (a b : Bool) → (a && b) ≡ true → b ≡ true
and_true_right a b h = ground arith

pub byte_set-lt : (b k : ℕ) → b < 256 → k < 8 → byte_set b k < 256
byte_set-lt b k hb hk = ltb→lt _ _ (and_true_left _ _ (byte_range b k 0 hb hk (omega arith)))

pub byte_clear-lt : (b k : ℕ) → b < 256 → k < 8 → byte_clear b k < 256
byte_clear-lt b k hb hk = ltb→lt _ _ (and_true_right _ _ (byte_range b k 0 hb hk (omega arith)))
