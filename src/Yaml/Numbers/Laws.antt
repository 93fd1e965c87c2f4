-- ===== src/Yaml/Numbers/Laws.antt =====
-- Every number that is printed is read back by `strtoull`.
use famfs.Prelude.{
  ℕ, zero, suc, ◌-◌, ◌^◌, ◌≤◌, ◌<◌, ◌≡◌, ◌≢◌, inl, inr, refl, ◌∙◌, ap, true, false, List, [], ◌∷◌,
  ltb, arith, Bool-cases, u32, Bool,
}
use famfs.Yaml.Numbers.{
  digit, render, print_unsigned, print_signed, print_hex, print_octal, digit_value, scan_digits,
  is_space, skip_spaces, take_sign, take_prefix, starts_with_digit, finish, convert, after_sign,
  strtoull_end, strtoull,
}
use famfs.Yaml.Numbers.Digits.{digit_value-digit, scan_digits-render, render-head}

-- A digit is neither a space nor a sign.
pub digit_starts :
    (d : ℕ) (r : List ℕ)
    → d < 16
    → (skip_spaces (digit d ∷ r) ≡ digit d ∷ r) × (take_sign (digit d ∷ r) ≡ (false, digit d ∷ r))
unfolding digit skip_spaces is_space take_sign
digit_starts d r h = (ground arith, ground arith)

pub prefix_none : (c : ℕ) (r : List ℕ) → c ≢ b'0' → take_prefix (c ∷ r) ≡ (10, c ∷ r)
unfolding take_prefix
prefix_none c [] h = ground arith
prefix_none c (x ∷ []) h = ground arith
prefix_none c (x ∷ d ∷ r) h = ground arith

prefix_octal :
    (d : ℕ) (r : List ℕ) → d < 8 → take_prefix (b'0' ∷ digit d ∷ r) ≡ (8, b'0' ∷ digit d ∷ r)
unfolding take_prefix digit
prefix_octal d [] h = refl
prefix_octal d (x ∷ r) h = ground arith

prefix_hex :
    (d : ℕ) (r : List ℕ) → d < 16 → take_prefix (b'0' ∷ b'x' ∷ digit d ∷ r) ≡ (16, digit d ∷ r)
unfolding take_prefix
prefix_hex d r h = rw (digit_value-digit d h) ground arith

-- What `strtoull` sees of a printed number, after the sign: digits, of which it reads them all.
record Reads (n : ℕ) (s : List ℕ) : Type 0 where
  no_space : skip_spaces s ≡ s
  no_sign : take_sign s ≡ (false, s)
  digits : starts_with_digit (take_prefix s).0 (take_prefix s).1 ≡ true
  value : scan_digits (take_prefix s).0 0 (take_prefix s).1 ≡ (n, [])

scan_digits_end : (b n : ℕ) → scan_digits b n [] ≡ (n, [])
unfolding scan_digits
scan_digits_end b n = refl

pub starts : (b d : ℕ) (r : List ℕ) → d < b → b ≤ 16 → starts_with_digit b (digit d ∷ r) ≡ true
unfolding starts_with_digit
starts b d r h k = rw (digit_value-digit d (omega arith)) ground arith

pub digit_nonzero : (d : ℕ) → 0 < d → digit d ≢ b'0'
unfolding digit
digit_nonzero d h = ground arith

zero-Reads : Reads 0 (print_unsigned 10 0)
unfolding print_unsigned render digit skip_spaces is_space take_sign take_prefix starts_with_digit
    scan_digits digit_value
zero-Reads = record { no_space = refl; no_sign = refl; digits = refl; value = refl }

decimal-Reads : (n : ℕ) → Reads n (print_unsigned 10 n)
unfolding print_unsigned
decimal-Reads zero = zero-Reads
decimal-Reads (suc m) =
    let n = suc m in
    let (d, r, e, small, first) = render-head 10 n n [] (omega arith) (omega arith) in
    let plain = prefix_none (digit d) r (digit_nonzero d (omega arith)) in
    let all =
      scan_digits-render 10 n n [] (omega arith) (omega arith) (omega arith)
      ∙ scan_digits_end 10 n in
    record {
      no_space = rw e (digit_starts d r (omega arith)).0;
      no_sign = rw e (digit_starts d r (omega arith)).1;
      digits = rw (e, plain) (starts 10 d r small (omega arith));
      value = rw (e, plain) (rw e at all);
    }

zero_starts :
    (s : List ℕ) → (skip_spaces (b'0' ∷ s) ≡ b'0' ∷ s) × (take_sign (b'0' ∷ s) ≡ (false, b'0' ∷ s))
unfolding skip_spaces is_space take_sign
zero_starts s = (refl, refl)

scan_digits_zero : (s : List ℕ) → scan_digits 8 0 (b'0' ∷ s) ≡ scan_digits 8 0 s
unfolding scan_digits digit_value
scan_digits_zero s = refl

octal-Reads : (n : ℕ) → Reads n (print_octal n)
unfolding print_unsigned print_octal digit
octal-Reads n =
    let (d, r, e, small, first) = render-head 8 n n [] (omega arith) (omega arith) in
    let plain = prefix_octal d r small in
    let all =
      scan_digits-render 8 n n [] (omega arith) (omega arith) (omega arith) ∙ scan_digits_end 8 n in
    record {
      no_space = (zero_starts (render 8 n n [])).0;
      no_sign = (zero_starts (render 8 n n [])).1;
      digits = rw (e, plain) (starts 8 0 (digit d ∷ r) (omega arith) (omega arith));
      value = rw (e, plain) (scan_digits_zero (digit d ∷ r) ∙ rw e at all);
    }

hex-Reads : (n : ℕ) → Reads n (print_hex n)
unfolding print_unsigned print_hex
hex-Reads n =
    let (d, r, e, small, first) = render-head 16 n n [] (omega arith) (omega arith) in
    let plain = prefix_hex d r small in
    let all =
      scan_digits-render 16 n n [] (omega arith) (omega arith) (omega arith)
      ∙ scan_digits_end 16 n in
    record {
      no_space = (zero_starts (b'x' ∷ render 16 n n [])).0;
      no_sign = (zero_starts (b'x' ∷ render 16 n n [])).1;
      digits = rw (e, plain) (starts 16 d r small (omega arith));
      value = rw (e, plain) (rw e at all);
    }

minus_starts :
    (s : List ℕ) → (skip_spaces (b'-' ∷ s) ≡ b'-' ∷ s) × (take_sign (b'-' ∷ s) ≡ (true, s))
unfolding skip_spaces is_space take_sign
minus_starts s = (refl, refl)

Reads-convert :
    (t : List ℕ) (neg : Bool) (n : ℕ) (s : List ℕ)
    → Reads n s
    → (convert t neg (take_prefix s)).0 ≡ finish neg n
unfolding convert
Reads-convert t neg n s r = rw (r.digits, r.value) refl

Reads-strtoull : (n : ℕ) (s : List ℕ) → Reads n s → strtoull s ≡ finish false n
unfolding strtoull strtoull_end after_sign
Reads-strtoull n s r =
    ap (λ z. (after_sign s z).0) (ap take_sign r.no_space ∙ r.no_sign) ∙ Reads-convert s false n s r

Reads-minus : (n : ℕ) (s : List ℕ) → Reads n s → strtoull (b'-' ∷ s) ≡ finish true n
unfolding strtoull strtoull_end after_sign
Reads-minus n s r =
    ap (λ z. (after_sign (b'-' ∷ s) z).0) (ap take_sign (minus_starts s).0 ∙ (minus_starts s).1)
    ∙ Reads-convert (b'-' ∷ s) true n s r

pub finish_small : (n : ℕ) → n < 2 ^ 64 → finish false n ≡ n
unfolding finish
finish_small n h = ground arith

pub strtoull-print_hex : (n : ℕ) → n < 2 ^ 64 → strtoull (print_hex n) ≡ n
strtoull-print_hex n h = Reads-strtoull n (print_hex n) (hex-Reads n) ∙ finish_small n h

pub strtoull-print_octal : (n : ℕ) → n < 2 ^ 64 → strtoull (print_octal n) ≡ n
strtoull-print_octal n h = Reads-strtoull n (print_octal n) (octal-Reads n) ∙ finish_small n h

-- Printed as signed, a word is read back as it was, though through a minus and a wrap.
pub strtoull-print_signed64 : (n : ℕ) → n < 2 ^ 64 → strtoull (print_signed 64 n) ≡ n
unfolding print_signed finish
strtoull-print_signed64 n h = elim (Bool-cases (ltb n (2 ^ 63))) [
  | inl y ↦ rw y (Reads-strtoull n (print_unsigned 10 n) (decimal-Reads n) ∙ finish_small n h)
  | inr big ↦
      let read = Reads-minus (2 ^ 64 - n) (print_unsigned 10 (2 ^ 64 - n)) (decimal-Reads _) in
      rw big (read ∙ ground arith)
]

pub strtoull-print_signed32 : (n : ℕ) → n < 2 ^ 32 → u32 (strtoull (print_signed 32 n)) ≡ n
unfolding print_signed finish
strtoull-print_signed32 n h = elim (Bool-cases (ltb n (2 ^ 31))) [
  | inl y ↦
      let read = Reads-strtoull n (print_unsigned 10 n) (decimal-Reads n) in
      rw (y, read) ground arith
  | inr big ↦
      let read = Reads-minus (2 ^ 32 - n) (print_unsigned 10 (2 ^ 32 - n)) (decimal-Reads _) in
      rw (big, read) ground arith
]
