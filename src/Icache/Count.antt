-- ===== src/Icache/Count.antt =====
-- Counting the addresses with a property, for the inode cache (src/famfs_fused_icache.c).
use famfs.Prelude.{
  ℕ, zero, suc, ◌+◌, ◌<◌, ◌≡◌, ◌≢◌, refl, Bool, true, false, if◌then◌else◌, arith, Bool-cases, inl,
  inr, ◌==◌,
}

-- How many of the addresses below `n` are in `f`.
unfoldable pub count_below : (ℕ → Bool) → ℕ → ℕ
count_below f zero = 0
count_below f (suc n) = (if f n then 1 else 0) + count_below f n

pub count_same :
    (f g : ℕ → Bool) (n : ℕ) → ((x : ℕ) → x < n → f x ≡ g x) → count_below f n ≡ count_below g n
unfolding count_below
count_same f g zero h = refl
count_same f g (suc n) h = rw (h n (omega arith), count_same f g n (λ x lt. h x (omega arith))) refl

-- `f` and `g` differ at `a` only, which is in `f`.
pub count_less :
    (f g : ℕ → Bool) (a n : ℕ)
    → a < n
    → f a ≡ true
    → g a ≡ false
    → ((x : ℕ) → x ≢ a → f x ≡ g x)
    → count_below f n ≡ suc (count_below g n)
unfolding count_below
count_less f g a zero lt fa ga h = absurd (omega (arith, lt))
count_less f g a (suc n) lt fa ga h = elim (Bool-cases (n == a)) [
  | inl here ↦
      let at : n ≡ a = ground arith in
      let rest = count_same f g n (λ x below. h x (λ e. absurd (omega (arith, e, below, at)))) in
      rw (at, fa, ga) (omega (arith, rw at at rest))
  | inr there ↦
      let ne : n ≢ a = λ e. absurd (ground arith) in
      rw (h n ne, count_less f g a n (ground (arith, lt)) fa ga h) (omega arith)
]

pub count_zero : (f : ℕ → Bool) (n x : ℕ) → count_below f n ≡ 0 → x < n → f x ≡ false
unfolding count_below
count_zero f zero x h lt = absurd (omega (arith, lt))
count_zero f (suc n) x h lt = elim (Bool-cases (f n)) [
  | inl yes_ ↦ absurd (ground (arith, h))
  | inr no_ ↦ elim (Bool-cases (x == n)) [
    | inl here ↦ let at : x ≡ n = ground arith in rw at no_
    | inr there ↦ count_zero f n x (ground (arith, h)) (ground (arith, lt))
  ]
]

pub count_none : (f : ℕ → Bool) (n : ℕ) → ((x : ℕ) → f x ≡ false) → count_below f n ≡ 0
unfolding count_below
count_none f zero h = refl
count_none f (suc n) h = rw (h n, count_none f n h) refl
