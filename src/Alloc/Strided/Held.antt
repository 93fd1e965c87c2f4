-- ===== src/Alloc/Strided/Held.antt =====
-- The strips that an allocation holds: how a bitmap differs from the one before.
use famfs.Prelude.{
  ℕ, zero, suc, ◌+◌, ◌-◌, ◌/◌, ◌^◌, ◌≤◌, ◌<◌, ◌≡◌, refl, ◌∙◌, ap, false, ◌==◌, if◌then◌else◌, store,
  u64, arith, Bool-cases, inl, inr,
}
use famfs.Meta.{SimpleExtent}
use famfs.Alloc.Extent.{pages}
use famfs.Alloc.Build.Owners.{covers}
use famfs.Alloc.Strided.{no_extent}

-- How many of the `left` strips from j on cover page x.
unfoldable pub held : ℕ → (ℕ → SimpleExtent) → ℕ → ℕ → ℕ → ℕ
held alloc_unit strips zero j x = 0
held alloc_unit strips (suc left) j x =
    (if covers alloc_unit (strips j) x then 1 else 0) + held alloc_unit strips left (j + 1) x

pub div_small : (a u : ℕ) → a < u → a / u ≡ 0
div_small a u h = grind arith

pub no_pages : (alloc_unit : ℕ) → 0 < alloc_unit → alloc_unit < 2 ^ 64 → pages alloc_unit 0 ≡ 0
no_pages alloc_unit pos small =
    let w : u64 (0 + alloc_unit - 1) ≡ alloc_unit - 1 = omega arith in
    rw w (div_small (alloc_unit - 1) alloc_unit (omega arith))

no_extent-covers :
    (alloc_unit x : ℕ)
    → 0 < alloc_unit
    → alloc_unit < 2 ^ 64
    → covers alloc_unit no_extent x ≡ false
no_extent-covers alloc_unit x pos small =
    let first : 0 / alloc_unit ≡ 0 = grind arith in
    let none_ : pages alloc_unit 0 ≡ 0 = no_pages alloc_unit pos small in
    rw (none_, first) (ground arith)

pub held_none :
    (alloc_unit left j x : ℕ)
    → 0 < alloc_unit
    → alloc_unit < 2 ^ 64
    → held alloc_unit (λ _. no_extent) left j x ≡ 0
unfolding held
held_none alloc_unit zero j x pos small = refl
held_none alloc_unit (suc left) j x pos small =
    ground (
      arith,
      no_extent-covers alloc_unit x pos small,
      held_none alloc_unit left (j + 1) x pos small,
    )

held_behind :
    (alloc_unit : ℕ) (strips : ℕ → SimpleExtent) (e : SimpleExtent) (p left j x : ℕ)
    → p < j
    → held alloc_unit (store strips p e) left j x ≡ held alloc_unit strips left j x
unfolding held
held_behind alloc_unit strips e p zero j x h = refl
held_behind alloc_unit strips e p (suc left) j x h =
    let ne : (j == p) ≡ false = ground arith in
    rw ne (
      ap (λ t. (if covers alloc_unit (strips j) x then 1 else 0) + t)
        (held_behind alloc_unit strips e p left (j + 1) x (omega arith)))

-- Writing a strip into an empty slot adds its pages.
pub held-store :
    (alloc_unit : ℕ) (strips : ℕ → SimpleExtent) (e : SimpleExtent) (p left j x : ℕ)
    → 0 < alloc_unit
    → alloc_unit < 2 ^ 64
    → strips p ≡ no_extent
    → j ≤ p
    → p < j + left
    → held alloc_unit (store strips p e) left j x
      ≡ held alloc_unit strips left j x + (if covers alloc_unit e x then 1 else 0)
unfolding held
held-store alloc_unit strips e p zero j x pos small empty lo hi = absurd (omega arith)
held-store alloc_unit strips e p (suc left) j x pos small empty lo hi = elim (Bool-cases (j == p)) [
  | inl y ↦
      let at : j ≡ p = ground arith in
      let rest = held_behind alloc_unit strips e p left (j + 1) x (omega arith) in
      let nothing = no_extent-covers alloc_unit x pos small in
      let was : strips j ≡ no_extent = ap strips at ∙ empty in
      rw (y, was, nothing, rest) (omega arith)
  | inr n ↦
      let rest =
        held-store alloc_unit strips e p left (j + 1) x pos small empty (ground arith)
          (omega arith) in
      rw (n, rest) (omega arith)
]

-- Slots that are still empty do not count.
pub held_prefix :
    (alloc_unit : ℕ) (strips : ℕ → SimpleExtent) (left more j x : ℕ)
    → 0 < alloc_unit
    → alloc_unit < 2 ^ 64
    → ((k : ℕ) → j + left ≤ k → strips k ≡ no_extent)
    → held alloc_unit strips (left + more) j x ≡ held alloc_unit strips left j x
unfolding held
held_prefix alloc_unit strips zero zero j x pos small empty = refl
held_prefix alloc_unit strips zero (suc more) j x pos small empty =
    let z : 0 + suc more ≡ suc more = omega arith in
    let z2 : 0 + more ≡ more = omega arith in
    let rest =
      held_prefix alloc_unit strips zero more (j + 1) x pos small (λ k hk. empty k (omega arith)) in
    rw (z, empty j (omega arith), no_extent-covers alloc_unit x pos small)
      (omega (arith, rw z2 at rest))
held_prefix alloc_unit strips (suc left) more j x pos small empty =
    let z : suc left + more ≡ suc (left + more) = omega arith in
    rw
      (
        z,
        held_prefix alloc_unit strips left more (j + 1) x pos small (λ k hk. empty k (omega arith)),
      )
      refl
