-- ===== src/Yaml/Numbers/Printable.antt =====
-- Printed numbers are printable text.
use native.Mathlib.Nat.{mod-lt}
use famfs.Prelude.{
  ℕ, zero, suc, ◌-◌, ◌/◌, ◌%◌, ◌^◌, ◌≤◌, ◌<◌, refl, List, [], ◌∷◌, ltb, arith, Bool-cases, inl, inr,
}
use famfs.Yaml.Numbers.{digit, render, print_unsigned, print_signed, print_hex, print_octal}
use famfs.Yaml.Numbers.Digits.{quotient_shrinks}
use famfs.Yaml.Tree.{is_printable, IsPrintable}

digit-IsPrintable :
    (d : ℕ) (rest : List ℕ) → d < 16 → IsPrintable rest → IsPrintable (digit d ∷ rest)
unfolding is_printable digit
digit-IsPrintable d rest h k = ground arith

render-IsPrintable :
    (b fuel n : ℕ) (rest : List ℕ)
    → 2 ≤ b
    → b ≤ 16
    → n ≤ fuel
    → IsPrintable rest
    → IsPrintable (render b fuel n rest)
unfolding render
render-IsPrintable b zero n rest lo hi h k = digit-IsPrintable n rest (omega arith) k
render-IsPrintable b (suc fuel) n rest lo hi h k = elim (Bool-cases (ltb n b)) [
  | inl y ↦ rw y (digit-IsPrintable n rest (ground arith) k)
  | inr big ↦
      let shrinks = quotient_shrinks b n lo (ground arith) in
      let low : n % b < b = mod-lt n (omega arith) in
      rw big (
        render-IsPrintable b fuel (n / b) (digit (n % b) ∷ rest) lo hi (omega arith)
          (digit-IsPrintable (n % b) rest (omega arith) k))
]

unsigned-IsPrintable : (b n : ℕ) → 2 ≤ b → b ≤ 16 → IsPrintable (print_unsigned b n)
unfolding print_unsigned is_printable
unsigned-IsPrintable b n lo hi = render-IsPrintable b n n [] lo hi (omega arith) refl

pub hex-IsPrintable : (n : ℕ) → IsPrintable (print_hex n)
unfolding print_hex is_printable
hex-IsPrintable n = unsigned-IsPrintable 16 n (omega arith) (omega arith)

pub octal-IsPrintable : (n : ℕ) → IsPrintable (print_octal n)
unfolding print_octal is_printable
octal-IsPrintable n = unsigned-IsPrintable 8 n (omega arith) (omega arith)

pub signed-IsPrintable : (w n : ℕ) → IsPrintable (print_signed w n)
unfolding print_signed is_printable
signed-IsPrintable w n = elim (Bool-cases (ltb n (2 ^ (w - 1)))) [
  | inl y ↦ rw y (unsigned-IsPrintable 10 n (omega arith) (omega arith))
  | inr big ↦ rw big (unsigned-IsPrintable 10 (2 ^ w - n) (omega arith) (omega arith))
]
