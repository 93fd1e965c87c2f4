-- ===== src/Yaml/Parse/Striped/Laws.antt =====
-- The reader of interleaved extents on what the writer of one interleaved extent writes.
use famfs.Prelude.{ℕ, suc, ◌^◌, ◌≤◌, ◌<◌, ◌≡◌, refl, ap, true, List, ◌∷◌, ◌++◌, arith, store, ◌==◌}
use famfs.Prelude.Lists.{length, length-append, list_eq}
use famfs.Prelude.Text.{codes}
use famfs.Meta.{SimpleExtent, LogFmap}
use famfs.Yaml.{Event, seq_start, seq_end, map_start, map_end, scalar}
use famfs.Yaml.Numbers.{print_signed, print_hex, strtoull}
use famfs.Yaml.Numbers.Laws.{strtoull-print_hex, strtoull-print_signed64}
use famfs.Yaml.Emit.{extents_events}
use famfs.Yaml.Parse.{parsed, again, finished, expect, expect_scalar}
use famfs.Yaml.Parse.{expect_end, event_type}
use famfs.Yaml.Parse.Loop.{one_turn, last_turn}
use famfs.Yaml.Parse.Extents.Laws.{FitsWord, fill, fill_below, simple_list_read}
use famfs.Yaml.Parse.Striped.{
  StripedList, striped_key, striped_value, after_strips, striped_entry, striped_turn, striped_from,
  famfs_parse_file_striped_ext_list,
}

-- The reader with these words, at the i-th interleaved extent
abbrev pub at_striped : LogFmap → (ℕ → ℕ) → ℕ → StripedList
at_striped fm words i = record { fmap = record fm { words = words }; ie_index = i }

nstrips_read :
    (max : ℕ) (fm : LogFmap) (words : ℕ → ℕ) (text : List ℕ) (rest : List Event) (v : ℕ)
    → strtoull text ≡ v
    → striped_turn max (at_striped fm words 0) (scalar (codes "nstrips") ∷ scalar text ∷ rest)
      ≡ again (at_striped fm (store words 0 v) 0) rest
unfolding striped_turn striped_entry striped_key striped_value expect_scalar list_eq
nstrips_read max fm words text rest v e = ap (λ n. again (at_striped fm (store words 0 n) 0) rest) e

chunk_size_read :
    (max : ℕ) (fm : LogFmap) (words : ℕ → ℕ) (text : List ℕ) (rest : List Event) (v : ℕ)
    → strtoull text ≡ v
    → striped_turn max (at_striped fm words 0) (scalar (codes "chunk_size") ∷ scalar text ∷ rest)
      ≡ again (at_striped fm (store words 1 v) 0) rest
unfolding striped_turn striped_entry striped_key striped_value expect_scalar list_eq
chunk_size_read max fm words text rest v e =
    ap (λ n. again (at_striped fm (store words 1 n) 0) rest) e

strips_read :
    (max : ℕ) (fm : LogFmap) (words : ℕ → ℕ) (f : ℕ → SimpleExtent) (n : ℕ) (rest : List Event)
    → words 0 ≡ n
    → 1 ≤ n
    → n ≤ max
    → ((k : ℕ) → k < n → FitsWord (f k))
    → striped_turn max (at_striped fm words 0) (
        scalar (codes "simple_ext_list") ∷ seq_start ∷ extents_events f n 0
        ++ (seq_end ∷ map_end ∷ rest))
      ≡ again (at_striped fm (fill 2 f n 0 words) 1) rest
unfolding striped_turn striped_entry striped_key after_strips list_eq
strips_read max fm words f n rest e lo hi fits =
    let same : (n == fill 2 f n 0 words 0) ≡ true =
      rw (fill_below 2 f n 0 words 0 (omega arith), e) ground arith in
    rw (simple_list_read 2 max f n words rest lo hi fits, same) refl

striped_end_read :
    (max : ℕ) (l : StripedList) (rest : List Event)
    → striped_turn max l (seq_end ∷ map_end ∷ rest) ≡ finished (parsed l rest)
unfolding striped_turn expect_end expect event_type
striped_end_read max l rest = refl

abbrev pub striped_words : ℕ → ℕ → (ℕ → SimpleExtent) → (ℕ → ℕ) → ℕ → ℕ
striped_words nstrips chunk f words = fill 2 f nstrips 0 (store (store words 0 nstrips) 1 chunk)

pub striped_list_read :
    (max : ℕ) (fm : LogFmap) (nstrips chunk : ℕ) (f : ℕ → SimpleExtent) (rest : List Event)
    → 1 ≤ nstrips
    → nstrips ≤ max
    → max < 2 ^ 64
    → chunk < 2 ^ 64
    → ((k : ℕ) → k < nstrips → FitsWord (f k))
    → famfs_parse_file_striped_ext_list max fm (
        seq_start
          ∷ map_start
          ∷ scalar (codes "nstrips")
          ∷ scalar (print_signed 64 nstrips)
          ∷ scalar (codes "chunk_size")
          ∷ scalar (print_hex chunk)
          ∷ scalar (codes "simple_ext_list")
          ∷ seq_start
          ∷ extents_events f nstrips 0
        ++ (seq_end ∷ map_end ∷ seq_end ∷ map_end ∷ rest))
      ≡ parsed (at_striped fm (striped_words nstrips chunk f fm.words) 1) rest
unfolding famfs_parse_file_striped_ext_list striped_from expect event_type
striped_list_read max fm nstrips chunk f rest lo hi small chunk_fits fits =
    let turn = striped_turn max in
    let w1 = store fm.words 0 nstrips in
    let w2 = store w1 1 chunk in
    let ending = seq_end ∷ map_end ∷ rest in
    let list = extents_events f nstrips 0 ++ (seq_end ∷ map_end ∷ ending) in
    let strips = scalar (codes "simple_ext_list") ∷ seq_start ∷ list in
    let chunk_size = scalar (codes "chunk_size") ∷ scalar (print_hex chunk) ∷ strips in
    let all = scalar (codes "nstrips") ∷ scalar (print_signed 64 nstrips) ∷ chunk_size in
    let l3 = at_striped fm (striped_words nstrips chunk f fm.words) 1 in
    let p = parsed l3 rest in
    one_turn turn (at_striped fm fm.words 0) (at_striped fm w1 0) all chunk_size p
      (nstrips_read max fm fm.words (print_signed 64 nstrips) chunk_size nstrips
        (strtoull-print_signed64 nstrips (omega arith)))
      (omega arith)
      (one_turn turn (at_striped fm w1 0) (at_striped fm w2 0) chunk_size strips p
        (chunk_size_read max fm w1 (print_hex chunk) strips chunk
          (strtoull-print_hex chunk chunk_fits))
        (omega arith)
        (one_turn turn (at_striped fm w2 0) l3 strips ending p
          (strips_read max fm w2 f nstrips ending refl lo hi fits)
          (omega (arith, length-append (extents_events f nstrips 0) (seq_end ∷ map_end ∷ ending)))
          (last_turn turn l3 ending p (striped_end_read max l3 rest))))
      (suc (length all)) (omega arith)
