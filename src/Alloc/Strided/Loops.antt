-- ===== src/Alloc/Strided/Loops.antt =====
-- The loops of `famfs_file_strided_alloc`: one takes strips, the other gives them back.
use native.Mathlib.Decide.{dec_le}
use mathlib.Core.Option.{some-injective}
use famfs.Prelude.{
  ℕ, zero, suc, ◌+◌, ◌-◌, ◌*◌, ◌/◌, ◌%◌, ◌^◌, ◌≤◌, ◌<◌, ◌≡◌, ◌≢◌, refl, true, false, ◌==◌, ltb, leb,
  Option, some, is_positive, store, u64, through_int, arith, Bool-cases, inl, inr, ◌⊎◌, minus_one,
  sym, ◌∙◌, Option-cases,
}
use famfs.Meta.{SimpleExtent}
use famfs.Bitmap.{Bitmap, mu_bitmap_test}
use famfs.Bitmap.Laws.{IsBytes}
use famfs.Alloc.Extent.{pages}
use famfs.Alloc.Extent.Laws.{in_range}
use famfs.Alloc.Buckets.{BucketSeries, bucket_series_next}
use famfs.Alloc.Contiguous.{Allocation, bitmap_alloc_contiguous, bitmap_free_contiguous}
use famfs.Alloc.Contiguous.Laws.{Allocated, alloc_outcome}
use famfs.Alloc.Contiguous.Scan.{IsFree}
use famfs.Alloc.Contiguous.Free.{IsSetRange, free_lem, free_inside, mul_div, mul_mod}
use famfs.Alloc.Build.Owners.{covers, bit}
use famfs.Alloc.Strided.{Strips, no_extent, put_strip, take_strips, free_strips}
use famfs.Alloc.Strided.Held.{held, held-store}

-- The conditions: a bitmap whose first page is taken, on a device that ends below 2 ^ 63, and an
-- array for at most 16 strips.
pub record Setting (nbits alloc_unit strip_len slots : ℕ) (m0 : Bitmap) : Type 0 where
  pub unit : 0 < alloc_unit
  pub word : alloc_unit < 2 ^ 63
  pub some_page : 0 < pages alloc_unit strip_len
  pub fits : nbits + pages alloc_unit strip_len ≤ 2 ^ 32
  pub device : nbits * alloc_unit < 2 ^ 63
  pub superblock : mu_bitmap_test m0 0 ≡ true
  pub few : slots ≤ 16

-- The last page of the device is taken, so that no place for a strip reaches behind the bitmap.
abbrev pub Closed : ℕ → Bitmap → Type 0
Closed nbits m = mu_bitmap_test m (nbits - 1) ≡ true

mul_mono : (i j u : ℕ) → i < j → i * u ≤ j * u
mul_mono i j u h = grind arith

mul_pos : (i u : ℕ) → 0 < i → 0 < u → 0 < i * u
mul_pos i u h k = grind arith

-- A strip that can be freed.
pub record IsFreeable (nbits alloc_unit : ℕ) (e : SimpleExtent) : Type 0 where
  pub aligned : e.se_offset % alloc_unit ≡ 0
  pub inside : e.se_offset / alloc_unit + pages alloc_unit e.se_len ≤ nbits

module _ (nbits alloc_unit strip_len slots : ℕ) (m0 : Bitmap)
    (h : Setting nbits alloc_unit strip_len slots m0) where
  -- The bitmap has the bits of `m0` and, apart from them and from each other, those of the strips.
  pub record Holds (s : Strips) : Type 0 where
    pub bytes : IsBytes s.bitmap
    pub bits : (x : ℕ) → bit s.bitmap x ≡ bit m0 x + held alloc_unit s.strips slots 0 x
    pub aligned : (k : ℕ) → (s.strips k).se_offset % alloc_unit ≡ 0
    pub freeable : Closed nbits m0 → (k : ℕ) → IsFreeable nbits alloc_unit (s.strips k)
    pub spare : (k : ℕ) → s.nstrips_allocated ≤ k → s.strips k ≡ no_extent
    pub lengths : (k : ℕ) → k < s.nstrips_allocated → (s.strips k).se_len ≡ strip_len

  busy :
      (s : Strips)
      → Holds s
      → (x : ℕ) → mu_bitmap_test m0 x ≡ true
      → mu_bitmap_test s.bitmap x ≡ true
  busy s v x t = ground (arith, v.bits x, t)

  module _ (s : Strips) (v : Holds s) (room : s.nstrips_allocated < slots) (pos range : ℕ) where
    abbrev a : Allocation
    a = bitmap_alloc_contiguous s.bitmap nbits alloc_unit strip_len pos range

    not_first : (i : ℕ) → IsFree s.bitmap i (pages alloc_unit strip_len) → i ≢ 0
    not_first i f e =
        ground
          (arith, f.clear 0 (omega arith) (omega (arith, h.some_page)), busy s v 0 h.superblock)

    within :
        (i : ℕ)
        → Closed nbits m0
        → i < nbits
        → IsFree s.bitmap i (pages alloc_unit strip_len)
        → i + pages alloc_unit strip_len ≤ nbits
    within i closed below f = elim (dec_le (i + pages alloc_unit strip_len) nbits) [
      | yes p ↦ p
      | no p ↦ ground (
        arith,
        f.clear (nbits - 1) (omega (arith, below)) (omega (arith, p, below)),
        busy s v (nbits - 1) closed,
      )
    ]

    -- What one round makes of it.
    record Round (r : Option Strips) : Type 0 where
      out : Strips
      returns : r ≡ some out
      holds : Holds out
      count :
          ((is_positive a.offset ≡ true) × (out.nstrips_allocated ≡ s.nstrips_allocated + 1))
          ⊎ ((is_positive a.offset ≡ false) × (out.nstrips_allocated ≡ s.nstrips_allocated))

    nothing-Round :
        a ≡ record { offset = minus_one; bitmap = s.bitmap; cur_pos = pos }
        → Round (put_strip nbits alloc_unit strip_len s a)
    unfolding put_strip
    nothing-Round e =
        rw e (record { out = s; returns = refl; holds = v; count = inr (ground arith, refl) })

    taken-Round :
        (i : ℕ)
        → i < nbits
        → Allocated s.bitmap alloc_unit (pages alloc_unit strip_len) i a
        → Round (put_strip nbits alloc_unit strip_len s a)
    unfolding put_strip
    taken-Round i below al =
        let n = pages alloc_unit strip_len in
        let away : i ≢ 0 = not_first i al.was_free in
        let top = mul_mono i nbits alloc_unit below in
        let low = mul_pos i alloc_unit (omega arith) h.unit in
        let at : a.offset ≡ i * alloc_unit = omega (arith, al.offset, top, h.device) in
        let good : is_positive a.offset ≡ true = ground (arith, at, top, low, h.device) in
        let free_slot : ltb s.nstrips_allocated 16 ≡ true = ground (arith, h.few) in
        let place : a.offset / alloc_unit ≡ i = rw at (mul_div i alloc_unit h.unit) in
        let e : SimpleExtent = record {
          se_devindex = 0;
          se_offset = a.offset;
          se_len = strip_len;
        } in
        let new : (x : ℕ) → covers alloc_unit e x ≡ in_range i n x = λ x. rw place refl in
        rw (good, free_slot)
          (record {
            out = record {
              bitmap = a.bitmap;
              strips = store s.strips s.nstrips_allocated e;
              nstrips_allocated = s.nstrips_allocated + 1;
            };
            returns = refl;
            holds = record {
              bytes = al.bytes;
              bits = λ x. ground (
                arith,
                al.bits x,
                v.bits x,
                new x,
                al.was_free.clear x,
                held-store alloc_unit s.strips e s.nstrips_allocated slots 0 x h.unit
                    (omega (arith, h.word)) (v.spare s.nstrips_allocated (omega arith))
                    (omega arith) (omega arith),
              );
              aligned = λ k. elim (Bool-cases (k == s.nstrips_allocated)) [
                | inl y ↦ rw y (rw at (mul_mod i alloc_unit h.unit))
                | inr y ↦ rw y (v.aligned k)
              ];
              freeable = λ closed k. elim (Bool-cases (k == s.nstrips_allocated)) [
                | inl y ↦ rw y (record {
                  aligned = rw at (mul_mod i alloc_unit h.unit);
                  inside = rw place (within i closed below al.was_free);
                })
                | inr y ↦ rw y (v.freeable closed k)
              ];
              spare = λ k hk.
                  let ne : (k == s.nstrips_allocated) ≡ false = ground arith in
                  rw ne (v.spare k (omega arith));
              lengths = λ k hk. elim (Bool-cases (k == s.nstrips_allocated)) [
                | inl y ↦ rw y refl
                | inr y ↦ rw y (v.lengths k (ground arith))
              ];
            };
            count = inl (good, refl);
          })

    put_strip-Round : Round (put_strip nbits alloc_unit strip_len s a)
    put_strip-Round =
        elim (alloc_outcome s.bitmap nbits alloc_unit strip_len pos range v.bytes h.some_page
          h.fits) [ inl e ↦ nothing-Round e | inr (i, lo, hi, al, least) ↦ taken-Round i hi al ]

  -- Taking strips returns, and keeps what the strips hold.
  pub take_strips_lem :
      (bucket_size_au nstrips left : ℕ) (bs : BucketSeries) (s : Strips)
      → Holds s
      → s.nstrips_allocated < nstrips
      → nstrips ≤ slots
      → (s' : Strips) × (take_strips nbits alloc_unit strip_len bucket_size_au nstrips left bs s
          ≡ some s')
        × Holds s'
        × (s'.nstrips_allocated ≤ nstrips)
  unfolding take_strips
  take_strips_lem bucket_size_au nstrips zero bs s v less few = (s, refl, v, omega arith)
  take_strips_lem bucket_size_au nstrips (suc left) bs s v less few =
      let (bs', bucket_num) = bucket_series_next bs in
      let p =
        put_strip-Round s v (omega arith)
          (u64 (u64 (through_int bucket_num * bucket_size_au) * alloc_unit))
          (u64 (bucket_size_au * alloc_unit)) in
      let rest = take_strips_lem bucket_size_au nstrips left bs' p.out p.holds in
      rw p.returns (elim p.count [
        | inl (good, c) ↦ elim (Bool-cases (leb nstrips p.out.nstrips_allocated)) [
          | inl enough ↦ rw (good, enough) (p.out, refl, p.holds, omega (arith, c))
          | inr more ↦ rw (good, more) (rest (ground arith) few)
        ]
        | inr (bad, c) ↦ rw bad (rest (omega (arith, c)) few)
      ])

  -- Freeing the strips from j on leaves those in front.
  pub free_strips_lem :
      (strips : ℕ → SimpleExtent) (left j : ℕ) (m : Bitmap)
      → IsBytes m
      → ((x : ℕ) → bit m x ≡ bit m0 x + held alloc_unit strips left j x)
      → ((k : ℕ) → IsFreeable nbits alloc_unit (strips k))
      → j + left ≤ 16
      → (m' : Bitmap) × (free_strips nbits alloc_unit strips left j m ≡ some m')
        × IsBytes m'
        × ((x : ℕ) → mu_bitmap_test m' x ≡ mu_bitmap_test m0 x)
  unfolding free_strips held
  free_strips_lem strips zero j m hm bits f few = (m, refl, hm, λ x. ground (arith, bits x))
  free_strips_lem strips (suc left) j m hm bits f few =
      let e = strips j in
      let covered : IsSetRange m (e.se_offset / alloc_unit) (pages alloc_unit e.se_len) = record {
        set = λ x lo hi. ground (arith, bits x);
      } in
      let c =
        free_lem m nbits alloc_unit e.se_offset e.se_len hm (f j).inside (f j).aligned covered in
      let inside : ltb j 16 ≡ true = ground arith in
      let rest =
        free_strips_lem strips left (j + 1) c.bitmap c.bytes (λ x. ground (arith, c.bits x, bits x))
          f (omega arith) in
      rw (inside, c.returns) rest

  -- Where freeing returns, it has given back all strips.
  pub free_strips_back :
      (strips : ℕ → SimpleExtent) (left j : ℕ) (m m' : Bitmap)
      → IsBytes m
      → ((x : ℕ) → bit m x ≡ bit m0 x + held alloc_unit strips left j x)
      → ((k : ℕ) → (strips k).se_offset % alloc_unit ≡ 0)
      → free_strips nbits alloc_unit strips left j m ≡ some m'
      → IsBytes m' × ((x : ℕ) → mu_bitmap_test m' x ≡ mu_bitmap_test m0 x)
  unfolding free_strips held
  free_strips_back strips zero j m m' hm bits al e =
      let same : m ≡ m' = some-injective m m' e in rw (← same) (hm, λ x. ground (arith, bits x))
  free_strips_back strips (suc left) j m m' hm bits al e = elim (Bool-cases (ltb j 16)) [
    | inr out ↦ absurd (ground arith)
    | inl inside ↦
        elim (Option-cases
          (bitmap_free_contiguous m nbits alloc_unit (strips j).se_offset (strips j).se_len)) [
            | inl stop ↦ absurd (ground arith)
            | inr (m1, freed) ↦
                let x = strips j in
                let covered : IsSetRange m (x.se_offset / alloc_unit) (pages alloc_unit x.se_len) =
                  record { set = λ y lo hi. ground (arith, bits y) } in
                let fit = free_inside m nbits alloc_unit x.se_offset x.se_len m1 freed in
                let c = free_lem m nbits alloc_unit x.se_offset x.se_len hm fit (al j) covered in
                let same : c.bitmap ≡ m1 = some-injective c.bitmap m1 (sym c.returns ∙ freed) in
                free_strips_back strips left (j + 1) m1 m' (rw same at c.bytes)
                  (λ y. ground (arith, rw same at (c.bits y), bits y)) al (rw (inside, freed) at e)
          ]
  ]
