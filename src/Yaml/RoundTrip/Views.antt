-- ===== src/Yaml/RoundTrip/Views.antt =====
-- The maps that the readers build say what the written maps say.
use famfs.Prelude.{
  ℕ, zero, suc, ◌+◌, ◌*◌, ◌≤◌, ◌<◌, ◌≡◌, refl, sym, ap, ◌∙◌, true, false, List, [], ◌∷◌, ◌==◌,
  arith, store,
}
use famfs.Meta.{SimpleExtent, LogFmap, ext_simple, ext_interleave}
use famfs.Meta.Fmap.{fmap_nextents, fmap_niext, se, ie_nstrips, ie_chunk_size, ie_strips, extent_at}
use famfs.Meta.View.{extent_list, stripe_list, map_view, simple_map, striped_map, StripeView}
use famfs.Yaml.Parse.Extents.Laws.{fill, fill_below, extent_at-fill}
use famfs.Yaml.Parse.Striped.Laws.{striped_words}

-- The maps that are read back, on words that were there before
abbrev pub simple_result : LogFmap → (ℕ → ℕ) → LogFmap
simple_result fm words = record {
  fmap_ext_type = ext_simple;
  fmap_count = fm.fmap_count;
  words = fill 0 (se fm) (fmap_nextents fm) 0 words;
}

abbrev pub striped_result : LogFmap → (ℕ → ℕ) → LogFmap
striped_result fm words = record {
  fmap_ext_type = ext_interleave;
  fmap_count = fm.fmap_count;
  words = striped_words (ie_nstrips fm 0) (ie_chunk_size fm 0) (ie_strips fm 0) words;
}

abbrev stripe : ℕ → List SimpleExtent → StripeView
stripe chunk strips = record { stripe_chunk_size = chunk; stripe_strips = strips }

extent_list_same :
    (f g : ℕ → SimpleExtent) (left i : ℕ)
    → ((k : ℕ) → i ≤ k → k < i + left → f k ≡ g k)
    → extent_list f left i ≡ extent_list g left i
unfolding extent_list
extent_list_same f g zero i h = refl
extent_list_same f g (suc left) i h =
    let more = extent_list_same f g left (i + 1) (λ k lo hi. h k (omega arith) (omega arith)) in
    cc (h i (omega arith) (omega arith), more)

simple_list :
    (fm : LogFmap) (words : ℕ → ℕ) (n : ℕ)
    → extent_list (λ k. extent_at (fill 0 (se fm) n 0 words) (3 * k)) n 0 ≡ extent_list (se fm) n 0
simple_list fm words n =
    extent_list_same (λ k. extent_at (fill 0 (se fm) n 0 words) (3 * k)) (se fm) n 0
      (λ k lo hi.
        ap (extent_at (fill 0 (se fm) n 0 words)) (omega arith)
        ∙ extent_at-fill 0 (se fm) n 0 k words lo hi)

pub simple_view :
    (fm : LogFmap) (words : ℕ → ℕ)
    → fm.fmap_ext_type ≡ ext_simple
    → map_view (simple_result fm words) ≡ map_view fm
unfolding map_view
simple_view fm words type =
    let simple : (fm.fmap_ext_type == ext_simple) ≡ true = ground arith in
    rw simple (ap simple_map (simple_list fm words (fmap_nextents fm)))

stripe_view :
    (fm : LogFmap) (words : ℕ → ℕ) → stripe_list (striped_result fm words) 1 0 ≡ stripe_list fm 1 0
unfolding stripe_list
stripe_view fm words =
    let n = ie_nstrips fm 0 in
    let chunk = ie_chunk_size fm 0 in
    let f = ie_strips fm 0 in
    let before = store (store words 0 n) 1 chunk in
    let W = striped_words n chunk f words in
    let count : W 0 ≡ n = fill_below 2 f n 0 before 0 (omega arith) in
    let size : W 1 ≡ chunk = fill_below 2 f n 0 before 1 (omega arith) in
    let strips : extent_list (λ k. extent_at W (2 + 3 * k)) n 0 ≡ extent_list f n 0 =
      extent_list_same (λ k. extent_at W (2 + 3 * k)) f n 0
        (λ k lo hi. extent_at-fill 2 f n 0 k before lo hi) in
    let all = ap (λ m. extent_list (λ k. extent_at W (2 + 3 * k)) m 0) count ∙ strips in
    ap (λ c. stripe c (extent_list (λ k. extent_at W (2 + 3 * k)) (W 0) 0) ∷ []) size
    ∙ ap (λ s. stripe chunk s ∷ []) all

pub striped_view :
    (fm : LogFmap) (words : ℕ → ℕ)
    → fm.fmap_ext_type ≡ ext_interleave
    → fmap_niext fm ≡ 1
    → map_view (striped_result fm words) ≡ map_view fm
unfolding map_view
striped_view fm words type one =
    let other : (fm.fmap_ext_type == ext_simple) ≡ false = ground arith in
    let striped : (fm.fmap_ext_type == ext_interleave) ≡ true = ground arith in
    rw (other, striped)
      (ap (λ n. striped_map (stripe_list (striped_result fm words) n 0)) one
        ∙ ap striped_map (stripe_view fm words)
        ∙ ap (λ n. striped_map (stripe_list fm n 0)) (sym one))
