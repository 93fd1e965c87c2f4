-- ===== src/Yaml/Parse/Extents/Laws.antt =====
-- The reader of simple extents on what the writer of simple extents writes.
use mathlib.Core.Path.{subst}
use famfs.Prelude.{
  ℕ, zero, suc, ◌+◌, ◌*◌, ◌^◌, ◌≤◌, ◌<◌, ◌≡◌, refl, ap, ◌∙◌, true, false, List, ◌∷◌, ◌++◌, arith,
  store, Bool-cases, inl, inr, ◌==◌,
}
use famfs.Prelude.Lists.{length, list_eq}
use famfs.Prelude.Text.{codes}
use famfs.Meta.{SimpleExtent}
use famfs.Meta.Fmap.{extent_at}
use famfs.Yaml.{Event, seq_start, seq_end, map_start, map_end, scalar}
use famfs.Yaml.Numbers.{print_signed, print_hex, strtoull}
use famfs.Yaml.Numbers.Laws.{strtoull-print_hex, strtoull-print_signed64}
use famfs.Yaml.Emit.{extents_events}
use famfs.Yaml.Parse.{Parsed, parsed, again, finished, expect, expect_scalar}
use famfs.Yaml.Parse.{expect_end, event_type}
use famfs.Yaml.Parse.Loop.{EndsIn, one_turn, last_turn}
use famfs.Yaml.Parse.Extents.{
  ExtentList, extent_key, set_word, extent_value, extent_entry, extent_turn, extents_from,
  famfs_parse_file_simple_ext_list,
}

pub record FitsWord (e : SimpleExtent) : Type 0 where
  pub devindex_fits : e.se_devindex < 2 ^ 64
  pub offset_fits : e.se_offset < 2 ^ 64
  pub len_fits : e.se_len < 2 ^ 64

-- The reader between two extents
abbrev pub at_extent : (ℕ → ℕ) → ℕ → ExtentList
at_extent words i = record { words = words; ext_index = i; got_ofs = false; got_len = false }

-- `e` stored in the i-th place of the array at `base`
abbrev pub put_extent : ℕ → ℕ → SimpleExtent → (ℕ → ℕ) → ℕ → ℕ
put_extent base i e words =
    store (store (store words (base + 3 * i + 0) e.se_devindex) (base + 3 * i + 1) e.se_offset)
      (base + 3 * i + 2) e.se_len

unfoldable pub fill : ℕ → (ℕ → SimpleExtent) → ℕ → ℕ → (ℕ → ℕ) → ℕ → ℕ
fill base f zero i words = words
fill base f (suc left) i words = fill base f left (i + 1) (put_extent base i (f i) words)

-- The events of an extent after the start of its mapping
abbrev pub body : SimpleExtent → List Event → List Event
body e rest =
    scalar (codes "devindex")
    ∷ scalar (print_signed 64 e.se_devindex)
    ∷ scalar (codes "offset")
    ∷ scalar (print_hex e.se_offset)
    ∷ scalar (codes "length")
    ∷ scalar (print_hex e.se_len)
    ∷ map_end
    ∷ rest

devindex_read :
    (base max : ℕ) (l : ExtentList) (text : List ℕ) (rest : List Event) (v : ℕ)
    → strtoull text ≡ v
    → extent_turn base max l (scalar (codes "devindex") ∷ scalar text ∷ rest)
      ≡ again (set_word base l 0 v) rest
unfolding extent_turn extent_entry extent_key extent_value expect_scalar list_eq
devindex_read base max l text rest v e = ap (λ n. again (set_word base l 0 n) rest) e

offset_read :
    (base max : ℕ) (l : ExtentList) (text : List ℕ) (rest : List Event) (v : ℕ)
    → strtoull text ≡ v
    → extent_turn base max l (scalar (codes "offset") ∷ scalar text ∷ rest)
      ≡ again (set_word base (record l { got_ofs = true }) 1 v) rest
unfolding extent_turn extent_entry extent_key extent_value expect_scalar list_eq
offset_read base max l text rest v e =
    ap (λ n. again (set_word base (record l { got_ofs = true }) 1 n) rest) e

length_read :
    (base max : ℕ) (l : ExtentList) (text : List ℕ) (rest : List Event) (v : ℕ)
    → strtoull text ≡ v
    → extent_turn base max l (scalar (codes "length") ∷ scalar text ∷ rest)
      ≡ again (set_word base (record l { got_len = true }) 2 v) rest
unfolding extent_turn extent_entry extent_key extent_value expect_scalar list_eq
length_read base max l text rest v e =
    ap (λ n. again (set_word base (record l { got_len = true }) 2 n) rest) e

pub body_read :
    (base max i : ℕ) (words : ℕ → ℕ) (e : SimpleExtent) (rest : List Event) (p : Parsed ExtentList)
    → FitsWord e
    → EndsIn (extent_turn base max) (at_extent (put_extent base i e words) (i + 1)) rest p
    → EndsIn (extent_turn base max) (at_extent words i) (body e rest) p
unfolding extent_turn
body_read base max i words e rest p fits ends =
    let turn = extent_turn base max in
    let l0 = at_extent words i in
    let l1 = set_word base l0 0 e.se_devindex in
    let l2 = set_word base (record l1 { got_ofs = true }) 1 e.se_offset in
    let l3 = set_word base (record l2 { got_len = true }) 2 e.se_len in
    let after = map_end ∷ rest in
    let len = scalar (codes "length") ∷ scalar (print_hex e.se_len) ∷ after in
    let ofs = scalar (codes "offset") ∷ scalar (print_hex e.se_offset) ∷ len in
    let d =
      devindex_read base max l0 (print_signed 64 e.se_devindex) ofs e.se_devindex
        (strtoull-print_signed64 e.se_devindex fits.devindex_fits) in
    let o =
      offset_read base max l1 (print_hex e.se_offset) len e.se_offset
        (strtoull-print_hex e.se_offset fits.offset_fits) in
    let k =
      length_read base max l2 (print_hex e.se_len) after e.se_len
        (strtoull-print_hex e.se_len fits.len_fits) in
    one_turn turn l0 l1 (body e rest) ofs p d (omega arith) (
      one_turn turn l1 l2 ofs len p o (omega arith) (
        one_turn turn l2 l3 len after p k (omega arith) (
          one_turn turn l3 (at_extent (put_extent base i e words) (i + 1)) after rest p refl
            (omega arith) ends)))

list_end_read :
    (base max : ℕ) (l : ExtentList) (rest : List Event)
    → extent_turn base max l (seq_end ∷ map_end ∷ rest) ≡ finished (parsed l rest)
unfolding extent_turn expect_end expect event_type
list_end_read base max l rest = refl

pub start_read :
    (base max i : ℕ) (words : ℕ → ℕ) (rest : List Event)
    → i < max
    → extent_turn base max (at_extent words i) (map_start ∷ rest) ≡ again (at_extent words i) rest
unfolding extent_turn
start_read base max i words rest h = ground arith

-- All the extents from i on, n in the whole list, and the end of the list.
extents_read :
    (base max : ℕ) (f : ℕ → SimpleExtent) (n left i : ℕ) (words : ℕ → ℕ) (rest : List Event)
    → i + left ≡ n
    → n ≤ max
    → ((k : ℕ) → k < n → FitsWord (f k))
    → EndsIn
        (extent_turn base max)
        (at_extent words i)
        (extents_events f left i ++ (seq_end ∷ map_end ∷ rest))
        (parsed (at_extent (fill base f left i words) n) rest)
unfolding extents_events fill
extents_read base max f n zero i words rest e h fits =
    let same : i ≡ n = omega arith in
    let turn = extent_turn base max in
    let events = seq_end ∷ map_end ∷ rest in
    last_turn turn (at_extent words i) events (parsed (at_extent words n) rest) (
      list_end_read base max (at_extent words i) rest
      ∙ ap (λ j. finished (parsed (at_extent words j) rest)) same)
extents_read base max f n (suc left) i words rest e h fits =
    let turn = extent_turn base max in
    let words' = put_extent base i (f i) words in
    let p = parsed (at_extent (fill base f left (i + 1) words') n) rest in
    let more = extents_events f left (i + 1) ++ (seq_end ∷ map_end ∷ rest) in
    let rest_read = extents_read base max f n left (i + 1) words' rest (omega arith) h fits in
    one_turn turn (at_extent words i) (at_extent words i) (map_start ∷ body (f i) more)
      (body (f i) more) p (start_read base max i words (body (f i) more) (omega arith))
      (omega arith) (body_read base max i words (f i) more p (fits i (omega arith)) rest_read)

-- A list of 1 to `max_extents` extents is read back, with the end of the mapping that it is in.
pub simple_list_read :
    (base max : ℕ) (f : ℕ → SimpleExtent) (n : ℕ) (words : ℕ → ℕ) (rest : List Event)
    → 1 ≤ n
    → n ≤ max
    → ((k : ℕ) → k < n → FitsWord (f k))
    → famfs_parse_file_simple_ext_list base max words
        (seq_start ∷ extents_events f n 0 ++ (seq_end ∷ map_end ∷ rest))
      ≡ parsed (at_extent (fill base f n 0 words) n) rest
unfolding famfs_parse_file_simple_ext_list extents_from expect event_type extents_events fill
simple_list_read base max f zero words rest lo hi fits = absurd (omega arith)
simple_list_read base max f (suc left) words rest lo hi fits =
    let words' = put_extent base 0 (f 0) words in
    let p = parsed (at_extent (fill base f left 1 words') (suc left)) rest in
    let more = extents_events f left 1 ++ (seq_end ∷ map_end ∷ rest) in
    let rest_read = extents_read base max f (suc left) left 1 words' rest (omega arith) hi fits in
    body_read base max 0 words (f 0) more p (fits 0 (omega arith)) rest_read
      (suc (length (body (f 0) more))) (omega arith)

-- What the array holds then: below it nothing changed, and in it are the extents.
pub fill_below :
    (base : ℕ) (f : ℕ → SimpleExtent) (left i : ℕ) (words : ℕ → ℕ) (a : ℕ)
    → a < base + 3 * i
    → fill base f left i words a ≡ words a
unfolding fill
fill_below base f zero i words a h = refl
fill_below base f (suc left) i words a h =
    fill_below base f left (i + 1) (put_extent base i (f i) words) a (omega arith) ∙ ground arith

put_extent_at :
    (base i : ℕ) (e : SimpleExtent) (words : ℕ → ℕ)
    → extent_at (put_extent base i e words) (base + 3 * i) ≡ e
put_extent_at base i e words = ground arith

pub extent_at-fill :
    (base : ℕ) (f : ℕ → SimpleExtent) (left i k : ℕ) (words : ℕ → ℕ)
    → i ≤ k
    → k < i + left
    → extent_at (fill base f left i words) (base + 3 * k) ≡ f k
unfolding fill
extent_at-fill base f zero i k words lo hi = absurd (omega arith)
extent_at-fill base f (suc left) i k words lo hi = elim (Bool-cases (i == k)) [
  | inl at ↦
      let here : i ≡ k = ground arith in
      let words' = put_extent base i (f i) words in
      let a = base + 3 * i in
      let kept : extent_at (fill base f left (i + 1) words') a ≡ extent_at words' a =
        rw
          (
            fill_below base f left (i + 1) words' a (omega arith),
            fill_below base f left (i + 1) words' (a + 1) (omega arith),
            fill_below base f left (i + 1) words' (a + 2) (omega arith),
          )
          refl in
      subst (λ j. extent_at (fill base f left (i + 1) words') (base + 3 * j) ≡ f j) here
        (kept ∙ put_extent_at base i (f i) words)
  | inr away ↦
      extent_at-fill base f left (i + 1) k (put_extent base i (f i) words) (ground arith)
        (omega arith)
]
