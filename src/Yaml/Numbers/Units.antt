-- ===== src/Yaml/Numbers/Units.antt =====
-- A decimal number with one character after it, as sizes are written: "2M".
use native.Mathlib.Nat.{pow-suc}
use famfs.Prelude.{
  ℕ, zero, suc, ◌+◌, ◌/◌, ◌%◌, ◌^◌, ◌≤◌, ◌<◌, ◌≡◌, refl, ap, ◌∙◌, true, false, List, [], ◌∷◌, ltb,
  arith, Bool-cases, inl, inr,
}
use famfs.Prelude.Lists.{length}
use famfs.Yaml.Numbers.{
  digit, render, digit_value, scan_digits, take_sign, take_prefix, finish, skip_spaces, convert,
  after_sign, strtoull_end, starts_with_digit, is_space,
}
use famfs.Yaml.Numbers.Digits.{scan_digits-render, render-head}
use famfs.Yaml.Numbers.Laws.{digit_starts, prefix_none, starts, digit_nonzero, finish_small}

-- n in decimal, and then one character
pub with_unit : ℕ → ℕ → List ℕ
with_unit n c = render 10 n n (c ∷ [])

render-length :
    (k fuel n : ℕ) (rest : List ℕ)
    → n < 10 ^ suc k
    → length (render 10 fuel n rest) ≤ suc k + length rest
unfolding render
render-length k zero n rest h = omega arith
render-length zero (suc fuel) n rest h =
    let small : ltb n 10 ≡ true = ground arith in rw small omega arith
render-length (suc k) (suc fuel) n rest h = elim (Bool-cases (ltb n 10)) [
  | inl y ↦ rw y omega arith
  | inr big ↦
      let power = pow-suc 10 (suc k) in
      let less : n / 10 < 10 ^ suc k = omega arith in
      let more = render-length k fuel (n / 10) (digit (n % 10) ∷ rest) less in rw big omega arith
]

pub with_unit-length : (n c : ℕ) → n < 2 ^ 64 → length (with_unit n c) ≤ 21
unfolding with_unit
with_unit-length n c h = render-length 19 n n (c ∷ []) (omega arith)

scan_digits_stops : (b n c : ℕ) → b ≤ digit_value c → scan_digits b n (c ∷ []) ≡ (n, c ∷ [])
unfolding scan_digits
scan_digits_stops b n c h = ground arith

zero_unit : (c : ℕ) → 10 ≤ digit_value c → strtoull_end (with_unit 0 c) ≡ (0, c ∷ [])
unfolding with_unit render digit skip_spaces is_space take_sign take_prefix starts_with_digit
    scan_digits digit_value finish convert after_sign strtoull_end
zero_unit c h = ground arith

-- `strtoull` reads the number, and leaves a character that is no decimal digit.
pub strtoull_end-with_unit :
    (n c : ℕ) → n < 2 ^ 64 → 10 ≤ digit_value c → strtoull_end (with_unit n c) ≡ (n, c ∷ [])
unfolding with_unit strtoull_end after_sign convert
strtoull_end-with_unit zero c h k = zero_unit c k
strtoull_end-with_unit (suc m) c h k =
    let n = suc m in
    let s = render 10 n n (c ∷ []) in
    let (d, r, e, small, first) = render-head 10 n n (c ∷ []) (omega arith) (omega arith) in
    let plain = prefix_none (digit d) r (digit_nonzero d (omega arith)) in
    let read =
      scan_digits-render 10 n n (c ∷ []) (omega arith) (omega arith) (omega arith)
      ∙ scan_digits_stops 10 n c k in
    let sign : take_sign (skip_spaces s) ≡ (false, s) =
      rw e (ap take_sign (digit_starts d r (omega arith)).0 ∙ (digit_starts d r (omega arith)).1) in
    let prefixed : take_prefix s ≡ (10, s) = rw e plain in
    let begins : starts_with_digit 10 s ≡ true = rw e (starts 10 d r small (omega arith)) in
    ap (after_sign s) sign
    ∙ ap (convert s false) prefixed
    ∙ rw (begins, read, finish_small n h) refl
