-- ===== src/Prelude/Masks.antt =====
-- `x & (m - 1)` for a power of two m: the remainder.
use Prim.Native.Nat.{
  ℕ, zero, suc, ◌+◌, ◌-◌, ◌*◌, ◌/◌, ◌%◌, ◌^◌, ◌≤◌, ◌<◌, min, bit_and, bit_and-bitwise, digits,
}
use mathlib.Core.Path.{◌≡◌, refl, ◌∙◌, sym}
use native.Mathlib.Omega.{arith}

mod_twice : (x m : ℕ) → 0 < m → x % (2 * m) ≡ x / 2 % m * 2 + x % 2
mod_twice x m h = grind arith

zero_mod : (m : ℕ) → 0 % m ≡ 0
zero_mod zero = refl
zero_mod (suc m) = omega arith

pow_twice : (k : ℕ) → 2 ^ suc k ≡ 2 * 2 ^ k
pow_twice k = omega arith

pow_pos : (k : ℕ) → 0 < 2 ^ k
pow_pos zero = omega arith
pow_pos (suc k) = omega (arith, pow_pos k, pow_twice k)

-- A mask of k + 1 ones is one of k ones and a one.
mask_half : (q : ℕ) → 0 < q → ((2 * q - 1) / 2 ≡ q - 1) × ((2 * q - 1) % 2 ≡ 1)
mask_half q h = (omega arith, omega arith)

-- The digits of `a` under a mask of k ones.
masked_digits : (n a k : ℕ) → a ≤ n → digits (λ b. zero) min n a (2 ^ k - 1) ≡ a % 2 ^ k
masked_digits zero zero k h = sym (zero_mod (2 ^ k))
masked_digits (suc n) zero k h = sym (zero_mod (2 ^ k))
masked_digits zero (suc a) k h = absurd (omega arith)
masked_digits (suc n) (suc a) zero h =
    let none_left = masked_digits n (suc a / 2) 0 (omega arith) in omega (arith, none_left)
masked_digits (suc n) (suc a) (suc k) h =
    let half = mask_half (2 ^ k) (pow_pos k) in
    let e : (2 ^ suc k - 1) / 2 ≡ 2 ^ k - 1 = rw pow_twice half.0 in
    let one : (2 ^ suc k - 1) % 2 ≡ 1 = rw pow_twice half.1 in
    let rest : digits (λ b. zero) min n (suc a / 2) ((2 ^ suc k - 1) / 2) ≡ suc a / 2 % 2 ^ k =
      rw e (masked_digits n (suc a / 2) k (omega arith)) in
    let low = mod_twice (suc a) (2 ^ k) (pow_pos k) in
    let whole : suc a % 2 ^ suc k ≡ suc a / 2 % 2 ^ k * 2 + suc a % 2 = rw pow_twice low in
    omega (arith, rest, one, whole)

pub bit_and-mask : (a k : ℕ) → bit_and a (2 ^ k - 1) ≡ a % 2 ^ k
bit_and-mask a k = bit_and-bitwise a (2 ^ k - 1) ∙ masked_digits a a k (omega arith)
