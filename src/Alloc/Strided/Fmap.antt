-- ===== src/Alloc/Strided/Fmap.antt =====
-- The map that the strided allocator writes, as a list of extents.
use mathlib.Core.Path.{ap₂}
use famfs.Prelude.{ℕ, zero, suc, ◌+◌, ◌-◌, ◌*◌, ◌/◌, ◌≡◌, refl, ap, if◌then◌else◌, arith, []}
use famfs.Meta.{SimpleExtent}
use famfs.Meta.Fmap.{ie_strips}
use famfs.Alloc.Build.Owners.{covers, owners, owners-append}
use famfs.Alloc.Build.Extents.{fmap_extents, interleaved_extents, strip_extents}
use famfs.Alloc.Strided.{strided_fmap}
use famfs.Alloc.Strided.Held.{held}

pub strip_at :
    (nstrips chunk_size : ℕ) (strips : ℕ → SimpleExtent) (k : ℕ)
    → ie_strips (strided_fmap nstrips chunk_size strips) 0 k ≡ strips k
unfolding strided_fmap
strip_at nstrips chunk_size strips k =
    let a : (50 * 0 + 2 + 3 * k - 2) / 3 ≡ k = omega arith in
    let b : (50 * 0 + 2 + 3 * k + 1 - 2) / 3 ≡ k = omega arith in
    let c : (50 * 0 + 2 + 3 * k + 2 - 2) / 3 ≡ k = omega arith in ground (arith, a, b, c)

-- The strips of the map own the pages that the array of strips holds.
owners_strips :
    (alloc_unit nstrips chunk_size : ℕ) (strips : ℕ → SimpleExtent) (left k x : ℕ)
    → owners alloc_unit (strip_extents (strided_fmap nstrips chunk_size strips) 0 left k) x
      ≡ held alloc_unit strips left k x
unfolding strip_extents owners held
owners_strips alloc_unit nstrips chunk_size strips zero k x = refl
owners_strips alloc_unit nstrips chunk_size strips (suc left) k x =
    ap₂ ◌+◌
      (ap (λ (e : SimpleExtent). if covers alloc_unit e x then 1 else 0)
        (strip_at nstrips chunk_size strips k))
      (owners_strips alloc_unit nstrips chunk_size strips left (k + 1) x)

pub owners_fmap :
    (alloc_unit nstrips chunk_size : ℕ) (strips : ℕ → SimpleExtent) (x : ℕ)
    → owners alloc_unit (fmap_extents (strided_fmap nstrips chunk_size strips)) x
      ≡ held alloc_unit strips nstrips 0 x
unfolding fmap_extents interleaved_extents strided_fmap owners
owners_fmap alloc_unit nstrips chunk_size strips x =
    let strips_ = strip_extents (strided_fmap nstrips chunk_size strips) 0 nstrips 0 in
    rw
      (
        owners-append alloc_unit strips_ [] x,
        owners_strips alloc_unit nstrips chunk_size strips nstrips 0 x,
      )
      (omega arith)
