-- ===== src/Alloc/Extent/Laws.antt =====
-- What `set_extent_in_bitmap` marks and counts.
use famfs.Prelude.{
  ℕ, zero, suc, ◌+◌, ◌-◌, ◌*◌, ◌/◌, ◌^◌, ◌≤◌, ◌<◌, ◌≡◌, refl, Bool, true, ◌&&◌, ◌||◌, ltb, leb,
  if◌then◌else◌, some, bit_and, u64, arith,
}
use famfs.Bitmap.{Bitmap, mu_bitmap_test, mu_bitmap_test_and_set}
use famfs.Bitmap.Laws.{IsBytes, Updates, mu_bitmap_test_and_set_lem}
use famfs.Alloc.Extent.{Marks, pages, mark_page, mark_pages, set_extent_in_bitmap}

-- Whether page `j` is one of the `n` pages from `k` on.
abbrev pub in_range : ℕ → ℕ → ℕ → Bool
in_range k n j = leb k j && ltb j (k + n)

-- How many of the `n` bits from `k` on are set.
unfoldable pub count_set : Bitmap → ℕ → ℕ → ℕ
count_set m k zero = 0
count_set m k (suc n) = (if mu_bitmap_test m k then 1 else 0) + count_set m (k + 1) n

-- How many of them are clear.
unfoldable pub count_clear : Bitmap → ℕ → ℕ → ℕ
count_clear m k zero = 0
count_clear m k (suc n) = (if mu_bitmap_test m k then 0 else 1) + count_clear m (k + 1) n

pub count_set-add-count_clear : (m : Bitmap) (k n : ℕ) → count_set m k n + count_clear m k n ≡ n
unfolding count_set count_clear
count_set-add-count_clear m k zero = refl
count_set-add-count_clear m k (suc n) = ground (arith, count_set-add-count_clear m (k + 1) n)

pub count_set_le : (m : Bitmap) (k n : ℕ) → count_set m k n ≤ n
unfolding count_set
count_set_le m k zero = omega arith
count_set_le m k (suc n) = ground (arith, count_set_le m (k + 1) n)

-- Bits that agree on a range count alike.
pub count_set_agree :
    (m m' : Bitmap) (k n : ℕ)
    → ((j : ℕ) → k ≤ j → j < k + n → mu_bitmap_test m' j ≡ mu_bitmap_test m j)
    → count_set m' k n ≡ count_set m k n
unfolding count_set
count_set_agree m m' k zero h = refl
count_set_agree m m' k (suc n) h = ground (
  arith,
  h k (omega arith) (omega arith),
  count_set_agree m m' (k + 1) n (λ j lo hi. h j (omega arith) (omega arith)),
)

pub count_clear_agree :
    (m m' : Bitmap) (k n : ℕ)
    → ((j : ℕ) → k ≤ j → j < k + n → mu_bitmap_test m' j ≡ mu_bitmap_test m j)
    → count_clear m' k n ≡ count_clear m k n
count_clear_agree m m' k n h = omega (
  arith,
  count_set_agree m m' k n h,
  count_set-add-count_clear m k n,
  count_set-add-count_clear m' k n,
)

-- What marking `n` pages from `k` on does to the loop's variables.
pub record Marked (alloc_unit k n : ℕ) (s s' : Marks) : Type 0 where
  pub bytes : IsBytes s'.bitmap
  pub bits : (j : ℕ) → mu_bitmap_test s'.bitmap j ≡ (in_range k n j || mu_bitmap_test s.bitmap j)
  pub errors : s'.errors ≡ u64 (s.errors + count_set s.bitmap k n)
  pub alloc_sum : s'.alloc_sum ≡ u64 (s.alloc_sum + alloc_unit * count_clear s.bitmap k n)

module _ (alloc_unit : ℕ) where
  mark_page_bitmap :
      (k : ℕ) (s : Marks)
      → (mark_page alloc_unit k s).bitmap ≡ (mu_bitmap_test_and_set s.bitmap k).0
  unfolding mark_page
  mark_page_bitmap k s = ground arith

  mark_page_step :
      (k : ℕ) (s : Marks)
      → IsBytes s.bitmap
      → let s' = mark_page alloc_unit k s in
        Updates s.bitmap k true s'.bitmap
        × (s'.errors ≡ (if mu_bitmap_test s.bitmap k then u64 (s.errors + 1) else s.errors))
        × (s'.alloc_sum
            ≡ (if mu_bitmap_test s.bitmap k then s.alloc_sum else u64 (s.alloc_sum + alloc_unit)))
  mark_page_step k s h =
      let step = mu_bitmap_test_and_set_lem s.bitmap k h in
      (
        rw (mark_page_bitmap k s) step.0,
        unfold mark_page in ground (arith, step.1),
        unfold mark_page in ground (arith, step.1),
      )

  mark_pages-Marked :
      (n k : ℕ) (s : Marks)
      → IsBytes s.bitmap
      → s.errors < 2 ^ 64
      → s.alloc_sum < 2 ^ 64
      → Marked alloc_unit k n s (mark_pages alloc_unit n k s)
  unfolding mark_pages count_set count_clear
  mark_pages-Marked zero k s h he ha = record {
    bytes = h;
    bits = λ j. ground arith;
    errors = omega arith;
    alloc_sum = omega arith;
  }
  mark_pages-Marked (suc n) k s h he ha =
      let step = mark_page_step k s h in
      let s' = mark_page alloc_unit k s in
      let rest =
        mark_pages-Marked n (k + 1) s' step.0.bytes (ground (arith, step.1))
          (ground (arith, step.2)) in
      let apart = λ (j : ℕ) (lo : k + 1 ≤ j) (hi : j < k + 1 + n).
        let same : mu_bitmap_test s'.bitmap j ≡ mu_bitmap_test s.bitmap j =
          ground (arith, step.0.test j) in
        same in
      let set = count_set_agree s.bitmap s'.bitmap (k + 1) n apart in
      let clear = count_clear_agree s.bitmap s'.bitmap (k + 1) n apart in
      record {
        bytes = rest.bytes;
        bits = λ j. ground (arith, rest.bits j, step.0.test j);
        errors = ground (arith, rest.errors, step.1, set);
        alloc_sum = ground (arith, rest.alloc_sum, step.2, clear);
      }

pub pages-lt : (alloc_unit len : ℕ) → pages alloc_unit len < 2 ^ 64
pages-lt alloc_unit len = omega arith

-- On an offset that passes its assertion `set_extent_in_bitmap` returns. It has set exactly the
-- pages of the extent, over those set before; its errors are the number of pages that were set
-- already, and the sum has grown by one unit for each page that was not.
pub set_extent_marks :
    (bitmap : Bitmap) (alloc_unit offset len alloc_sum : ℕ)
    → IsBytes bitmap
    → alloc_sum < 2 ^ 64
    → bit_and offset (alloc_unit - 1) ≡ 0
    → (s : Marks) × (set_extent_in_bitmap bitmap alloc_unit offset len alloc_sum ≡ some s)
      × IsBytes s.bitmap
      × ((j : ℕ)
          → mu_bitmap_test s.bitmap j
            ≡ (in_range (offset / alloc_unit) (pages alloc_unit len) j || mu_bitmap_test bitmap j))
      × (s.errors ≡ count_set bitmap (offset / alloc_unit) (pages alloc_unit len))
      × (s.alloc_sum
          ≡ u64 (
              alloc_sum
              + alloc_unit * count_clear bitmap (offset / alloc_unit) (pages alloc_unit len)))
unfolding set_extent_in_bitmap
set_extent_marks bitmap alloc_unit offset len alloc_sum h ha aligned =
    let n = pages alloc_unit len in
    let k = offset / alloc_unit in
    let start : Marks = record { bitmap = bitmap; errors = 0; alloc_sum = alloc_sum } in
    let m = mark_pages-Marked alloc_unit n k start h (omega arith) ha in
    let few : n < 2 ^ 64 = pages-lt alloc_unit len in
    (
      mark_pages alloc_unit n k start,
      ground arith,
      m.bytes,
      m.bits,
      ground (arith, m.errors, count_set_le bitmap k n),
      m.alloc_sum,
    )
