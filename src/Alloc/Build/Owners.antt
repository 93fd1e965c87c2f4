-- ===== src/Alloc/Build/Owners.antt =====
-- How many extents own a page, and what marking a list of extents makes of the bitmap and the
-- errors: the rules by which the loops of `famfs_build_bitmap` are followed.
use famfs.Prelude.{
  ℕ, zero, suc, ◌+◌, ◌-◌, ◌*◌, ◌/◌, ◌%◌, ◌^◌, ◌≤◌, ◌<◌, ◌≡◌, refl, ◌∙◌, Bool, false, ◌||◌, ltb,
  if◌then◌else◌, Option, some, List, [], ◌∷◌, ◌++◌, ◌>>=◌, bit_and, u64, through_int, arith,
}
use famfs.Prelude.Lists.{length, length-append}
use famfs.Meta.{SimpleExtent}
use famfs.Bitmap.{Bitmap, mu_bitmap_test}
use famfs.Bitmap.Laws.{IsBytes}
use famfs.Alloc.Extent.{pages}
use famfs.Alloc.Extent.Laws.{in_range, count_set, count_set_le, set_extent_marks}
use famfs.Alloc.Build.{Build, mark_extent}

abbrev pub covers : ℕ → SimpleExtent → ℕ → Bool
covers alloc_unit e j = in_range (e.se_offset / alloc_unit) (pages alloc_unit e.se_len) j

unfoldable pub owners : ℕ → List SimpleExtent → ℕ → ℕ
owners alloc_unit [] j = 0
owners alloc_unit (e ∷ es) j = (if covers alloc_unit e j then 1 else 0) + owners alloc_unit es j

pub owners_cons :
    (alloc_unit : ℕ) (e : SimpleExtent) (es : List SimpleExtent) (j : ℕ)
    → owners alloc_unit (e ∷ es) j
      ≡ (if covers alloc_unit e j then 1 else 0) + owners alloc_unit es j
unfolding owners
owners_cons alloc_unit e es j = refl

pub owners-append :
    (alloc_unit : ℕ) (xs ys : List SimpleExtent) (j : ℕ)
    → owners alloc_unit (xs ++ ys) j ≡ owners alloc_unit xs j + owners alloc_unit ys j
unfolding owners
owners-append alloc_unit [] ys j = omega arith
owners-append alloc_unit (x ∷ xs) ys j = omega (arith, owners-append alloc_unit xs ys j)

-- An extent that starts on a page and has fewer than 2 ^ 31 pages.
pub record Fits (alloc_unit : ℕ) (e : SimpleExtent) : Type 0 where
  pub masked : bit_and e.se_offset (alloc_unit - 1) ≡ 0
  pub whole : e.se_offset % alloc_unit ≡ 0
  pub small : pages alloc_unit e.se_len < 2 ^ 31

abbrev pub bit : Bitmap → ℕ → ℕ
bit m j = if mu_bitmap_test m j then 1 else 0

-- No page is owned twice, nor owned and set before.
abbrev pub NoClash : ℕ → Bitmap → List SimpleExtent → Type 0
NoClash alloc_unit m es = (j : ℕ) → bit m j + owners alloc_unit es j ≤ 1

unfolding_count : (m : Bitmap) (k n : ℕ) → count_set m k (suc n) ≡ bit m k + count_set m (k + 1) n
unfolding count_set
unfolding_count m k n = refl

count_set_zero→ :
    (m : Bitmap) (n k : ℕ)
    → count_set m k n ≡ 0
    → (j : ℕ) → k ≤ j
    → j < k + n
    → mu_bitmap_test m j ≡ false
count_set_zero→ m zero k h j lo hi = absurd (omega arith)
count_set_zero→ m (suc n) k h j lo hi =
    let split = unfolding_count m k n in
    let rest : count_set m (k + 1) n ≡ 0 = omega (arith, split) in
    ground (arith, split, count_set_zero→ m n (k + 1) rest j)

count_set_zero← :
    (m : Bitmap) (n k : ℕ)
    → ((j : ℕ) → k ≤ j → j < k + n → mu_bitmap_test m j ≡ false)
    → count_set m k n ≡ 0
unfolding count_set
count_set_zero← m zero k h = refl
count_set_zero← m (suc n) k h = ground (
  arith,
  h k (omega arith) (omega arith),
  count_set_zero← m n (k + 1) (λ j lo hi. h j (omega arith) (omega arith)),
)

-- The state before `n` more extents are marked.
pub record Ready (n : ℕ) (b : Build) : Type 0 where
  pub bytes : IsBytes b.bitmap
  pub sum : b.alloc_sum < 2 ^ 64
  pub errors : b.errors + 2 ^ 31 * n < 2 ^ 64

-- `r` is what marking the extents `es` makes of `b`.
pub record Marked (alloc_unit : ℕ) (es : List SimpleExtent) (b : Build) (r : Option Build)
    : Type 0 where
  pub out : Build
  pub returns : r ≡ some out
  pub bytes : IsBytes out.bitmap
  pub sum : out.alloc_sum < 2 ^ 64
  pub bits :
      (j : ℕ)
      → mu_bitmap_test out.bitmap j ≡ (mu_bitmap_test b.bitmap j || ltb 0 (owners alloc_unit es j))
  pub grows : b.errors ≤ out.errors
  pub bounded : out.errors ≤ b.errors + 2 ^ 31 * length es
  pub clean→ : out.errors ≡ b.errors → NoClash alloc_unit b.bitmap es
  pub clean← : NoClash alloc_unit b.bitmap es → out.errors ≡ b.errors

pub bit_le : (m : Bitmap) (j : ℕ) → bit m j ≤ 1
bit_le m j = ground arith

module _ (alloc_unit : ℕ) where
  pub Marked-nil : (b : Build) → Ready 0 b → Marked alloc_unit [] b (some b)
  unfolding owners
  Marked-nil b r = record {
    out = b;
    returns = refl;
    bytes = r.bytes;
    sum = r.sum;
    bits = λ j. ground arith;
    grows = omega arith;
    bounded = omega arith;
    clean→ = λ e j. omega (arith, bit_le b.bitmap j);
    clean← = λ n. refl;
  }

  pub Marked-one :
      (e : SimpleExtent) (b : Build)
      → Fits alloc_unit e
      → Ready 1 b
      → Marked alloc_unit (e ∷ []) b (mark_extent alloc_unit e b)
  unfolding owners
  Marked-one e b f r =
      let k = e.se_offset / alloc_unit in
      let n = pages alloc_unit e.se_len in
      let (s, ret, bytes, bits, errors, sum) =
        set_extent_marks b.bitmap alloc_unit e.se_offset e.se_len b.alloc_sum r.bytes r.sum
          f.masked in
      let few = count_set_le b.bitmap k n in
      let added : u64 (b.errors + through_int s.errors) ≡ b.errors + count_set b.bitmap k n =
        ground (arith, errors, few, f.small, r.errors) in
      record {
        out = record b {
          bitmap = s.bitmap;
          alloc_sum = s.alloc_sum;
          errors = u64 (b.errors + through_int s.errors);
        };
        returns = unfold mark_extent in rw ret;
        bytes = bytes;
        sum = omega (arith, sum);
        bits = λ j. ground (arith, bits j);
        grows = omega (arith, added);
        bounded = omega (arith, added, few, f.small);
        clean→ = λ h j.
            let zero_count : count_set b.bitmap k n ≡ 0 = omega (arith, added) in
            ground (arith, count_set_zero→ b.bitmap n k zero_count j);
        clean← = λ h.
            let none_set : count_set b.bitmap k n ≡ 0 =
              count_set_zero← b.bitmap n k (λ j lo hi. ground (arith, h j)) in
            omega (arith, added, none_set);
      }

  -- Marking one list and then another marks both.
  pub Marked-bind :
      (xs ys : List SimpleExtent) (b : Build) (r : Option Build) (f : Build → Option Build)
      → Ready (length xs + length ys) b
      → Marked alloc_unit xs b r
      → ((b' : Build) → Ready (length ys) b' → Marked alloc_unit ys b' (f b'))
      → Marked alloc_unit (xs ++ ys) b (r >>= f)
  Marked-bind xs ys b r f ready first next =
      let mid = first.out in
      let second = next mid (record {
        bytes = first.bytes;
        sum = first.sum;
        errors = omega (arith, first.bounded, ready.errors);
      }) in
      let both = owners-append alloc_unit xs ys in
      let total = length-append xs ys in
      record {
        out = second.out;
        returns = rw (first.returns) second.returns;
        bytes = second.bytes;
        sum = second.sum;
        bits = λ j. ground (arith, second.bits j, first.bits j, both j);
        grows = omega (arith, first.grows, second.grows);
        bounded = omega (arith, first.bounded, second.bounded, total);
        clean→ = λ h.
            let e1 : mid.errors ≡ b.errors = omega (arith, first.grows, second.grows) in
            let e2 : second.out.errors ≡ mid.errors = omega (arith, e1) in
            let c1 = first.clean→ e1 in
            let c2 = second.clean→ e2 in λ j. ground (arith, c1 j, c2 j, first.bits j, both j);
        clean← = λ h.
            let e1 : mid.errors ≡ b.errors = first.clean← (λ j. omega (arith, h j, both j)) in
            let e2 : second.out.errors ≡ mid.errors =
              second.clean← (λ j. ground (arith, h j, first.bits j, both j)) in
            e2 ∙ e1;
      }

  -- What the marking does not read may change before it.
  pub Marked-same :
      (es : List SimpleExtent) (b c : Build) (r : Option Build)
      → c.bitmap ≡ b.bitmap
      → c.errors ≡ b.errors
      → Marked alloc_unit es c r
      → Marked alloc_unit es b r
  Marked-same es b c r eb ee m = record {
    out = m.out;
    returns = m.returns;
    bytes = m.bytes;
    sum = m.sum;
    bits = rw (← eb) m.bits;
    grows = rw (← ee) m.grows;
    bounded = rw (← ee) m.bounded;
    clean→ = rw (← eb, ← ee) m.clean→;
    clean← = rw (← eb, ← ee) m.clean←;
  }

  pub Marked-cons :
      (e : SimpleExtent) (ys : List SimpleExtent) (b : Build) (f : Build → Option Build)
      → Fits alloc_unit e
      → Ready (suc (length ys)) b
      → ((b' : Build) → Ready (length ys) b' → Marked alloc_unit ys b' (f b'))
      → Marked alloc_unit (e ∷ ys) b (mark_extent alloc_unit e b >>= f)
  Marked-cons e ys b f fits r next =
      let room : b.errors + 2 ^ 31 * suc (length ys) < 2 ^ 64 = r.errors in
      Marked-bind (e ∷ []) ys b (mark_extent alloc_unit e b) f
        (record { bytes = r.bytes; sum = r.sum; errors = omega (arith, room) })
        (Marked-one e b fits
          (record { bytes = r.bytes; sum = r.sum; errors = omega (arith, room) }))
        next
