-- ===== src/Yaml/Numbers.antt =====
-- The C library's conversions that src/famfs_yaml.c prints and reads numbers with: `sprintf` of
-- "%lld", "%d", "0x%llx" and "0%o", and `strtoull` with base 0.
pub mod Digits
pub mod Laws
pub mod Printable
pub mod Units
use famfs.Prelude.{
  ℕ, zero, suc, ◌+◌, ◌-◌, ◌*◌, ◌/◌, ◌%◌, ◌^◌, Bool, true, false, ◌&&◌, ◌||◌, List, [], ◌∷◌, ◌==◌,
  ltb, leb, u64, if◌then◌else◌,
}

-- A digit below 16 as a character, in lower case.
pub digit : ℕ → ℕ
digit d = if ltb d 10 then d + 48 else d + 87

-- The digits of n before `rest`; n itself is more fuel than there are digits.
pub render : ℕ → ℕ → ℕ → List ℕ → List ℕ
render b zero n rest = digit n ∷ rest
render b (suc fuel) n rest =
    let more = render b fuel (n / b) (digit (n % b) ∷ rest) in
    if ltb n b then digit n ∷ rest else more

pub print_unsigned : ℕ → ℕ → List ℕ
print_unsigned b n = render b n n []

-- "%lld" and "%d" of the bit pattern of a signed integer of w bits
pub print_signed : ℕ → ℕ → List ℕ
print_signed w n =
    if ltb n (2 ^ (w - 1)) then print_unsigned 10 n else b'-' ∷ print_unsigned 10 (2 ^ w - n)

-- "0x%llx"
pub print_hex : ℕ → List ℕ
print_hex n = b'0' ∷ b'x' ∷ print_unsigned 16 n

-- "0%o"
pub print_octal : ℕ → List ℕ
print_octal n = b'0' ∷ print_unsigned 8 n

-- The value of a digit or a letter; 99 is no digit in any base.
unfoldable pub digit_value : ℕ → ℕ
digit_value c =
    if leb b'0' c && leb c b'9'
    then c - 48
    else if leb b'a' c && leb c b'z'
    then c - 87
    else if leb b'A' c && leb c b'Z'
    then c - 55
    else 99

-- The longest run of digits of base b, after digits whose value is `acc`.
pub scan_digits : ℕ → ℕ → List ℕ → ℕ × List ℕ
scan_digits b acc [] = (acc, [])
scan_digits b acc (c ∷ cs) =
    let more = scan_digits b (acc * b + digit_value c) cs in
    if ltb (digit_value c) b then more else (acc, c ∷ cs)

pub is_space : ℕ → Bool
is_space c = c == 32 || leb 9 c && leb c 13

pub skip_spaces : List ℕ → List ℕ
skip_spaces [] = []
skip_spaces (c ∷ cs) = let more = skip_spaces cs in if is_space c then more else c ∷ cs

-- An optional sign: whether it is a minus, and what follows it.
pub take_sign : List ℕ → Bool × List ℕ
take_sign [] = (false, [])
take_sign (c ∷ cs) =
    if c == b'-' then (true, cs) else if c == b'+' then (false, cs) else (false, c ∷ cs)

-- The base that the prefix names, and the digits: "0x" and a hexadecimal digit, "0", or neither.
pub take_prefix : List ℕ → ℕ × List ℕ
take_prefix [] = (10, [])
take_prefix (c ∷ []) = (if c == b'0' then 8 else 10, c ∷ [])
take_prefix (c ∷ x ∷ []) = (if c == b'0' then 8 else 10, c ∷ x ∷ [])
take_prefix (c ∷ x ∷ d ∷ cs) =
    if c == b'0' && (x == b'x' || x == b'X') && ltb (digit_value d) 16
    then (16, d ∷ cs)
    else (if c == b'0' then 8 else 10, c ∷ x ∷ d ∷ cs)

pub starts_with_digit : ℕ → List ℕ → Bool
starts_with_digit b [] = false
starts_with_digit b (c ∷ cs) = ltb (digit_value c) b

-- The value of the digits: `ULLONG_MAX` if it is too large, and negated mod 2 ^ 64 after a minus.
pub finish : Bool → ℕ → ℕ
finish neg m = if leb (2 ^ 64) m then 2 ^ 64 - 1 else if neg then u64 (2 ^ 64 - m) else m

-- The digits after the sign and the prefix; the value is 0 and `endptr` the whole string where
-- there are none.
pub convert : List ℕ → Bool → ℕ × List ℕ → ℕ × List ℕ
convert s neg (b, digits) =
    let r = scan_digits b 0 digits in
    if starts_with_digit b digits then (finish neg r.0, r.1) else (0, s)

pub after_sign : List ℕ → Bool × List ℕ → ℕ × List ℕ
after_sign s (neg, unsigned) = convert s neg (take_prefix unsigned)

-- The value, and what `endptr` is set to.
unfoldable pub strtoull_end : List ℕ → ℕ × List ℕ
strtoull_end s = after_sign s (take_sign (skip_spaces s))

unfoldable pub strtoull : List ℕ → ℕ
strtoull s = (strtoull_end s).0
