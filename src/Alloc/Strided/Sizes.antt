-- ===== src/Alloc/Strided/Sizes.antt =====
-- The sizes that `famfs_file_strided_alloc` computes, without the wrap of 64 bits.
use famfs.Prelude.{
  ℕ, ◌+◌, ◌-◌, ◌*◌, ◌/◌, ◌%◌, ◌^◌, ◌≤◌, ◌<◌, ◌≡◌, ◌≢◌, refl, true, not, ◌==◌, some, u64,
  through_int, arith,
}
use famfs.Alloc.Extent.{pages}
use famfs.Alloc.File.{LockedLog}
use famfs.Alloc.Strided.{strip_units}

abbrev pub chunk_units : LockedLog → ℕ
chunk_units lp = lp.interleave_param.chunk_size / lp.alloc_unit

abbrev pub stripe_units : LockedLog → ℕ
stripe_units lp = lp.interleave_param.nstrips * chunk_units lp

-- The chunks of a strip: the file's pages in stripes, rounded up.
abbrev pub nstripes : LockedLog → ℕ → ℕ
nstripes lp size = (pages lp.alloc_unit size + stripe_units lp - 1) / stripe_units lp

abbrev pub strip_size : LockedLog → ℕ → ℕ
strip_size lp size = nstripes lp size * chunk_units lp

pub chunk_pos : (c u : ℕ) → c ≢ 0 → c % u ≡ 0 → 0 < c / u
chunk_pos c u ne e = grind arith

mul_pos : (i u : ℕ) → 0 < i → 0 < u → 0 < i * u
mul_pos i u h k = grind arith

mul_le : (i j u : ℕ) → i ≤ j → i * u ≤ j * u
mul_le i j u h = grind arith

pub le_mul : (i u : ℕ) → 0 < u → i ≤ i * u
le_mul i u h = grind arith

mul_mod_left : (i u : ℕ) → 0 < i → i * u % i ≡ 0
mul_mod_left i u h = grind arith

round_up_pos : (p s : ℕ) → 0 < p → 0 < s → 0 < (p + s - 1) / s
round_up_pos p s h k = grind arith

pub round_up : (p s : ℕ) → 0 < s → p ≤ (p + s - 1) / s * s
round_up p s k = grind arith

pub whole_pages : (n u : ℕ) → 0 < u → (n * u + u - 1) / u ≡ n
whole_pages n u h = grind arith

floor : (d u : ℕ) → 0 < u → d / u * u ≤ d
floor d u h = grind arith

swap_factors : (y u b : ℕ) → y * u * b ≡ y * b * u
swap_factors y u b = grind arith

pub floor_twice : (d u b : ℕ) → 0 < u → 0 < b → d / u / b * u * b ≤ d
floor_twice d u b h k =
    let y = d / u / b in
    let inner = mul_le (y * b) (d / u) u (floor (d / u) b k) in
    omega (arith, swap_factors y u b, inner, floor d u h)

regroup : (k n c u : ℕ) → k * (n * c) * u ≡ n * (k * c * u)
regroup k n c u = grind arith

-- The sizes that 64 bits and an `int` can hold.
pub record IsModest (lp : LockedLog) (size : ℕ) : Type 0 where
  pub unit : 0 < lp.alloc_unit
  pub unit_word : lp.alloc_unit ≤ 0x200000
  pub some_strips : 0 < lp.interleave_param.nstrips
  pub few_strips : lp.interleave_param.nstrips ≤ 16
  pub some_chunk : lp.interleave_param.chunk_size ≢ 0
  pub whole_chunk : lp.interleave_param.chunk_size % lp.alloc_unit ≡ 0
  pub chunked : lp.interleave_param.chunk_size ≤ size
  pub size_word : size < 2 ^ 52
  pub strip_int : strip_size lp size < 2 ^ 31

div_le : (a u : ℕ) → 0 < u → a / u ≤ a
div_le a u h = grind arith

module _ (lp : LockedLog) (size : ℕ) (h : IsModest lp size) where
  chunk_some : 0 < chunk_units lp
  chunk_some = chunk_pos lp.interleave_param.chunk_size lp.alloc_unit h.some_chunk h.whole_chunk

  stripe_some : 0 < stripe_units lp
  stripe_some = mul_pos lp.interleave_param.nstrips (chunk_units lp) h.some_strips chunk_some

  stripe_small : stripe_units lp < 2 ^ 57
  stripe_small =
      let a = mul_le lp.interleave_param.nstrips 16 (chunk_units lp) h.few_strips in
      let b = div_le lp.interleave_param.chunk_size lp.alloc_unit h.unit in
      omega (arith, a, b, h.chunked, h.size_word)

  pages_small : pages lp.alloc_unit size < 2 ^ 53
  pages_small =
      let a = div_le (u64 (size + lp.alloc_unit - 1)) lp.alloc_unit h.unit in
      omega (arith, a, h.size_word, h.unit_word)

  size_pages : u64 (size + lp.alloc_unit - 1) ≡ size + lp.alloc_unit - 1
  size_pages = omega (arith, h.size_word, h.unit_word, h.unit)

  nstripes_some : 0 < nstripes lp size
  nstripes_some =
      let c : size ≢ 0 = omega (arith, h.some_chunk, h.chunked) in
      let p : 0 < pages lp.alloc_unit size =
        rw size_pages (round_up_pos size lp.alloc_unit (omega arith) h.unit) in
      round_up_pos (pages lp.alloc_unit size) (stripe_units lp) p stripe_some

  pub strip_some : 0 < strip_size lp size
  strip_some = mul_pos (nstripes lp size) (chunk_units lp) nstripes_some chunk_some

  pub strip_units_eq : strip_units lp size ≡ some (strip_size lp size)
  unfolding strip_units
  strip_units_eq =
      let w : u64 (stripe_units lp) ≡ stripe_units lp = omega (arith, stripe_small) in
      let v : u64 (pages lp.alloc_unit size + stripe_units lp - 1)
          ≡ pages lp.alloc_unit size + stripe_units lp - 1 =
        omega (arith, stripe_small, pages_small) in
      let n = le_mul (nstripes lp size) (chunk_units lp) chunk_some in
      let int : through_int (nstripes lp size) ≡ nstripes lp size =
        ground (arith, n, h.strip_int) in
      let fit : u64 (strip_size lp size) ≡ strip_size lp size = omega (arith, h.strip_int) in
      let a1 : not (lp.interleave_param.nstrips == 0) ≡ true = ground (arith, h.some_strips) in
      let a2 : (stripe_units lp % lp.interleave_param.nstrips == 0) ≡ true =
        rw (mul_mod_left lp.interleave_param.nstrips (chunk_units lp) h.some_strips) refl in
      let a3 : not (stripe_units lp == 0) ≡ true = ground (arith, stripe_some) in
      rw (a1, w, a2, a3, v, int, fit) refl

  strip_bytes_small : strip_size lp size * lp.alloc_unit < 2 ^ 53
  strip_bytes_small =
      let a = mul_le (strip_size lp size) (2 ^ 31) lp.alloc_unit (omega (arith, h.strip_int)) in
      omega (arith, a, h.unit_word)

  pub strip_len_eq : u64 (strip_size lp size * lp.alloc_unit) ≡ strip_size lp size * lp.alloc_unit
  strip_len_eq = omega (arith, strip_bytes_small)

  pub strip_pages : pages lp.alloc_unit (strip_size lp size * lp.alloc_unit) ≡ strip_size lp size
  strip_pages =
      let w : u64 (strip_size lp size * lp.alloc_unit + lp.alloc_unit - 1)
          ≡ strip_size lp size * lp.alloc_unit + lp.alloc_unit - 1 =
        omega (arith, strip_bytes_small, h.unit_word) in
      rw w (whole_pages (strip_size lp size) lp.alloc_unit h.unit)

  -- The strips together have room for the file.
  pub strips_enough : size ≤ lp.interleave_param.nstrips * (strip_size lp size * lp.alloc_unit)
  strips_enough =
      let p = pages lp.alloc_unit size in
      let a : size ≤ p * lp.alloc_unit = rw size_pages (round_up size lp.alloc_unit h.unit) in
      let b =
        mul_le p (nstripes lp size * stripe_units lp) lp.alloc_unit
          (round_up p (stripe_units lp) stripe_some) in
      omega (
        arith,
        a,
        b,
        regroup (nstripes lp size) lp.interleave_param.nstrips (chunk_units lp) lp.alloc_unit,
      )
