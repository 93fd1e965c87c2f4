-- ===== src/Yaml/Numbers/Digits.antt =====
-- Digits that are printed are scanned as the number that they were printed of.
use native.Mathlib.Nat.{mul-le-mul_right, mul-zero, mod-lt}
use native.Mathlib.Omega.{div_any}
use famfs.Prelude.{
  ℕ, zero, suc, ◌+◌, ◌*◌, ◌/◌, ◌%◌, ◌≤◌, ◌<◌, ◌≡◌, ◌⊎◌, ◌≢◌, inl, inr, refl, ◌∙◌, ap, List, ◌∷◌,
  ltb, arith, Bool-cases,
}
use famfs.Yaml.Numbers.{digit, render, digit_value, scan_digits}

pub digit_value-digit : (d : ℕ) → d < 16 → digit_value (digit d) ≡ d
unfolding digit digit_value
digit_value-digit d h = ground arith

pub scan_digits-digit :
    (b acc d : ℕ) (rest : List ℕ)
    → d < b
    → b ≤ 16
    → scan_digits b acc (digit d ∷ rest) ≡ scan_digits b (acc * b + d) rest
unfolding scan_digits
scan_digits-digit b acc d rest h k = rw (digit_value-digit d (omega arith)) ground arith

scan_digits_first :
    (b d : ℕ) (rest : List ℕ)
    → d < b
    → b ≤ 16
    → scan_digits b 0 (digit d ∷ rest) ≡ scan_digits b d rest
scan_digits_first b d rest h k =
    let from_zero : 0 * b + d ≡ d = omega arith in
    scan_digits-digit b 0 d rest h k ∙ ap (λ m. scan_digits b m rest) from_zero

pub quotient_shrinks : (b n : ℕ) → 2 ≤ b → b ≤ n → n / b < n
quotient_shrinks b n h k =
    let parts = div_any n b in let twice = mul-le-mul_right (n / b) h in omega (arith, parts, twice)

quotient_nonzero : (b n : ℕ) → b * (n / b) + n % b ≡ n → n % b < b → b ≤ n → n / b ≢ 0
quotient_nonzero b n parts low large z =
    let nothing : b * (n / b) ≡ 0 = rw z (mul-zero b) in omega (arith, parts, nothing)

pub scan_digits-render :
    (b fuel n : ℕ) (rest : List ℕ)
    → 2 ≤ b
    → b ≤ 16
    → n ≤ fuel
    → scan_digits b 0 (render b fuel n rest) ≡ scan_digits b n rest
unfolding render
scan_digits-render b zero n rest lo hi h = scan_digits_first b n rest (omega arith) hi
scan_digits-render b (suc fuel) n rest lo hi h = elim (Bool-cases (ltb n b)) [
  | inl y ↦ rw y (scan_digits_first b n rest (ground arith) hi)
  | inr big ↦
      let shrinks = quotient_shrinks b n lo (ground arith) in
      let low : n % b < b = mod-lt n (omega arith) in
      let first = scan_digits-render b fuel (n / b) (digit (n % b) ∷ rest) lo hi (omega arith) in
      let next = scan_digits-digit b (n / b) (n % b) rest low hi in
      let parts = div_any n b in
      let whole : n / b * b + n % b ≡ n = omega arith in
      rw big (first ∙ next ∙ ap (λ m. scan_digits b m rest) whole)
]

-- The first digit is one of the base, and not 0 unless the number is.
pub render-head :
    (b fuel n : ℕ) (rest : List ℕ)
    → 2 ≤ b
    → n ≤ fuel
    → (d : ℕ) × (r : List ℕ) × (render b fuel n rest ≡ digit d ∷ r) × (d < b) × ((n ≡ 0) ⊎ (0 < d))
unfolding render
render-head b zero n rest lo h = (n, rest, refl, omega arith, omega arith)
render-head b (suc fuel) n rest lo h = elim (Bool-cases (ltb n b)) [
  | inl y ↦ (n, rest, rw y refl, ground arith, omega arith)
  | inr big ↦
      let shrinks = quotient_shrinks b n lo (ground arith) in
      let (d, r, e, small, first) =
        render-head b fuel (n / b) (digit (n % b) ∷ rest) lo (omega arith) in
      let parts = div_any n b in
      let low : n % b < b = mod-lt n (omega arith) in
      let large : b ≤ n = ground arith in
      let some_digit = quotient_nonzero b n parts low large in
      (d, r, rw big e, small, elim first [ inl z ↦ absurd (some_digit z) | inr p ↦ inr p ])
]
