-- ===== src/Prelude/Word.antt =====
-- C words: `u64` arithmetic wraps; an `s64` is its bit pattern below 2 ^ 64. Memory is a function
-- of the address, since a C pointer carries no length.
use famfs.Prelude.Tests.{ltb, leb, ◌==◌, if◌then◌else◌}
use Prim.Native.Nat.{ℕ, ◌+◌, ◌-◌, ◌%◌, ◌^◌}
use mathlib.Core.Bool.{Bool, ◌&&◌}

abbrev pub u32 : ℕ → ℕ
u32 n = n % 2 ^ 32

abbrev pub u64 : ℕ → ℕ
u64 n = n % 2 ^ 64

-- `a - b` on `u64`
abbrev pub sub64 : ℕ → ℕ → ℕ
sub64 a b = (a + 2 ^ 64 - b) % 2 ^ 64

-- The `s64` value -1, and the signed tests `x < 0` and `x > 0`.
abbrev pub minus_one : ℕ
minus_one = 2 ^ 64 - 1

abbrev pub is_negative : ℕ → Bool
is_negative x = leb (2 ^ 63) x

abbrev pub is_positive : ℕ → Bool
is_positive x = ltb 0 x && ltb x (2 ^ 63)

-- `m[i] = v`
abbrev pub store {ℓ} : {A : Type ℓ} → (ℕ → A) → ℕ → A → ℕ → A
store m i v j = if j == i then v else m j

-- A `u64` assigned to an `int` and used as a `u64` again: its low 32 bits, sign-extended.
abbrev pub through_int : ℕ → ℕ
through_int x = let w = x % 2 ^ 32 in if ltb w (2 ^ 31) then w else w + (2 ^ 64 - 2 ^ 32)
