-- ===== src/Yaml/RoundTrip/Exact.antt =====
-- The words of the map that is read back, where the words beyond the written extents are zero.
use famfs.Prelude.{
  ℕ, zero, suc, ◌+◌, ◌*◌, ◌≤◌, ◌<◌, ◌≡◌, ◌⊎◌, inl, inr, refl, sym, ap, true, false, ◌==◌, ltb,
  arith, store, if◌then◌else◌, Bool-cases,
}
use famfs.Meta.{SimpleExtent, LogFmap, ext_simple, ext_interleave}
use famfs.Meta.Fmap.{fmap_nextents, se, ie_nstrips, ie_chunk_size, ie_strips, extent_at}
use famfs.Yaml.Parse.Extents.Laws.{fill, put_extent}
use famfs.Yaml.RoundTrip.Views.{simple_result, striped_result}

-- The words that the extents of a map take
abbrev pub used_words : LogFmap → ℕ
used_words fm =
    if fm.fmap_ext_type == ext_simple then 3 * fmap_nextents fm else 2 + 3 * ie_nstrips fm 0

-- The rest of the 50 words of the union is zero, as in a map that was zeroed before it was filled.
abbrev pub IsZeroBeyond : LogFmap → Type 0
IsZeroBeyond fm = (a : ℕ) → used_words fm ≤ a → a < 50 → fm.words a ≡ 0

put_agrees :
    (base i : ℕ) (e : SimpleExtent) (W w : ℕ → ℕ) (a : ℕ)
    → e ≡ extent_at W (base + 3 * i)
    → (w a ≡ W a) ⊎ ((base + 3 * i ≤ a) × (a < base + 3 * i + 3))
    → put_extent base i e w a ≡ W a
put_agrees base i e W w a h k =
    let d : e.se_devindex ≡ W (base + 3 * i) = ap (λ x. x.se_devindex) h in
    let o : e.se_offset ≡ W (base + 3 * i + 1) = ap (λ x. x.se_offset) h in
    let l : e.se_len ≡ W (base + 3 * i + 2) = ap (λ x. x.se_len) h in grind arith

fill_agrees :
    (base : ℕ) (f : ℕ → SimpleExtent) (W : ℕ → ℕ)
    → ((k : ℕ) → f k ≡ extent_at W (base + 3 * k))
    → (left i : ℕ) (w : ℕ → ℕ) (a : ℕ)
    → (w a ≡ W a) ⊎ ((base + 3 * i ≤ a) × (a < base + 3 * (i + left)))
    → fill base f left i w a ≡ W a
unfolding fill
fill_agrees base f W same zero i w a (inl e) = e
fill_agrees base f W same zero i w a (inr (lo, hi)) = absurd (omega arith)
fill_agrees base f W same (suc left) i w a h =
    fill_agrees base f W same left (i + 1) (put_extent base i (f i) w) a
      (go (Bool-cases (ltb a (base + 3 * (i + 1)))) h)
  where
    go :
        (ltb a (base + 3 * (i + 1)) ≡ true) ⊎ (ltb a (base + 3 * (i + 1)) ≡ false)
        → (w a ≡ W a) ⊎ ((base + 3 * i ≤ a) × (a < base + 3 * (i + suc left)))
        → (put_extent base i (f i) w a ≡ W a)
          ⊎ ((base + 3 * (i + 1) ≤ a) × (a < base + 3 * (i + 1 + left)))
    go near (inl e) = inl (put_agrees base i (f i) W w a (same i) (inl e))
    go (inl y) (inr (lo, hi)) =
        inl (put_agrees base i (f i) W w a (same i) (inr (lo, ground arith)))
    go (inr far) (inr (lo, hi)) = inr (ground arith, omega arith)

-- A word is either used or zero before and after.
word_cases :
    (fm : LogFmap) (used a : ℕ)
    → used_words fm ≡ used
    → IsZeroBeyond fm
    → a < 50
    → (0 ≡ fm.words a) ⊎ (a < used)
word_cases fm used a e zeros h = elim (Bool-cases (ltb a used)) [
  | inl y ↦ inr (ground arith)
  | inr beyond ↦ inl (sym (zeros a (ground arith) h))
]

pub simple-Exact :
    (fm : LogFmap)
    → fm.fmap_ext_type ≡ ext_simple
    → IsZeroBeyond fm
    → (a : ℕ) → a < 50
    → (simple_result fm (λ b. 0)).words a ≡ fm.words a
simple-Exact fm type zeros a h =
    let simple : (fm.fmap_ext_type == ext_simple) ≡ true = ground arith in
    let used = ap (λ b. if b then 3 * fmap_nextents fm else 2 + 3 * ie_nstrips fm 0) simple in
    fill_agrees 0 (se fm) fm.words (λ k. ap (extent_at fm.words) (omega arith)) (fmap_nextents fm) 0
      (λ b. 0) a
      (elim (word_cases fm (3 * fmap_nextents fm) a used zeros h) [
        | inl z ↦ inl z
        | inr u ↦ inr (omega arith, omega arith)
      ])

head_words :
    (fm : LogFmap) (a : ℕ)
    → (0 ≡ fm.words a) ⊎ (a < 2)
    → store (store (λ b. 0) 0 (ie_nstrips fm 0)) 1 (ie_chunk_size fm 0) a ≡ fm.words a
head_words fm a h = grind arith

pub striped-Exact :
    (fm : LogFmap)
    → fm.fmap_ext_type ≡ ext_interleave
    → IsZeroBeyond fm
    → (a : ℕ) → a < 50
    → (striped_result fm (λ b. 0)).words a ≡ fm.words a
striped-Exact fm type zeros a h =
    let other : (fm.fmap_ext_type == ext_simple) ≡ false = ground arith in
    let used = ap (λ b. if b then 3 * fmap_nextents fm else 2 + 3 * ie_nstrips fm 0) other in
    fill_agrees 2 (ie_strips fm 0) fm.words (λ k. refl) (ie_nstrips fm 0) 0
      (store (store (λ b. 0) 0 (ie_nstrips fm 0)) 1 (ie_chunk_size fm 0)) a
      (elim (word_cases fm (2 + 3 * ie_nstrips fm 0) a used zeros h) [
        | inl z ↦ inl (head_words fm a (inl z))
        | inr u ↦ elim (Bool-cases (ltb a 2)) [
          | inl y ↦ inl (head_words fm a (inr (ground arith)))
          | inr far ↦ inr (ground arith, omega arith)
        ]
      ])

-- The map that is read back is the written one to the last word, if that is zero beyond its extents.
pub record Exact (fm m : LogFmap) : Type 0 where
  pub same_type : m.fmap_ext_type ≡ fm.fmap_ext_type
  pub same_count : m.fmap_count ≡ fm.fmap_count
  pub same_words : IsZeroBeyond fm → (a : ℕ) → a < 50 → m.words a ≡ fm.words a
