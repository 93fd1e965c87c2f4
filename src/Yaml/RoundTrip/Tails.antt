-- ===== src/Yaml/RoundTrip/Tails.antt =====
-- The events after the fields of the section, for either kind of map.
use mathlib.Core.List.{append_assoc}
use famfs.Prelude.{ℕ, ◌≤◌, ◌≡◌, ap, ◌∙◌, true, false, List, [], ◌∷◌, ◌++◌, arith, ◌==◌}
use famfs.Prelude.Text.{codes}
use famfs.Meta.{LogFmap, ext_simple, ext_interleave}
use famfs.Meta.Fmap.{fmap_nextents, fmap_niext, se, ie_nstrips, ie_chunk_size, ie_strips}
use famfs.Yaml.Numbers.{print_signed, print_hex}
use famfs.Yaml.{Event, map_start, seq_start, seq_end, map_end, document_end, stream_end, scalar}
use famfs.Yaml.Emit.{loop_bound, extents_events, closing}
use famfs.Yaml.Emit.Events.{simple_events, interleaved_events, list_events}

loop_bound_small : (n : ℕ) → n ≤ 16 → loop_bound n ≡ n
unfolding loop_bound
loop_bound_small n h = ground arith

-- The events after the fields, with the end of the stream
abbrev pub tail_events : List Event
tail_events = document_end ∷ stream_end ∷ []

pub simple_tail :
    (fm : LogFmap)
    → fm.fmap_ext_type ≡ ext_simple
    → fmap_nextents fm ≤ 16
    → list_events fm ++ closing
      ≡ scalar (codes "simple_ext_list") ∷ seq_start ∷ extents_events (se fm) (fmap_nextents fm) 0
        ++ (seq_end ∷ map_end ∷ map_end ∷ tail_events)
unfolding list_events simple_events
simple_tail fm type small =
    let simple : (fm.fmap_ext_type == ext_simple) ≡ true = ground arith in
    rw (simple, loop_bound_small (fmap_nextents fm) small)
      (ap (λ more. scalar (codes "simple_ext_list") ∷ seq_start ∷ more)
        (append_assoc (extents_events (se fm) (fmap_nextents fm) 0) (seq_end ∷ []) closing))

-- The strips, and the ends of their list, of the extent, of the list of extents and of the rest.
strips_tail :
    (E rest : List Event)
    → (((E ++ (seq_end ∷ [])) ++ (map_end ∷ [])) ++ (seq_end ∷ [])) ++ rest
      ≡ E ++ (seq_end ∷ map_end ∷ seq_end ∷ rest)
strips_tail E rest =
    append_assoc ((E ++ (seq_end ∷ [])) ++ (map_end ∷ [])) (seq_end ∷ []) rest
    ∙ append_assoc (E ++ (seq_end ∷ [])) (map_end ∷ []) (seq_end ∷ rest)
    ∙ append_assoc E (seq_end ∷ []) (map_end ∷ seq_end ∷ rest)

abbrev pub striped_start : LogFmap → List Event → List Event
striped_start fm strips =
    scalar (codes "striped_ext_list")
    ∷ seq_start
    ∷ map_start
    ∷ scalar (codes "nstrips")
    ∷ scalar (print_signed 64 (ie_nstrips fm 0))
    ∷ scalar (codes "chunk_size")
    ∷ scalar (print_hex (ie_chunk_size fm 0))
    ∷ scalar (codes "simple_ext_list")
    ∷ seq_start
    ∷ strips

one_interleaved :
    (fm : LogFmap)
    → fmap_niext fm ≡ 1
    → (scalar (codes "striped_ext_list") ∷ seq_start ∷ interleaved_events fm (fmap_niext fm) 0
          ++ (seq_end ∷ []))
        ++ closing
      ≡ striped_start fm (
          extents_events (ie_strips fm 0) (loop_bound (ie_nstrips fm 0)) 0
          ++ (seq_end ∷ map_end ∷ seq_end ∷ closing))
unfolding interleaved_events simple_events
one_interleaved fm one =
    ap
      (λ n.
        (scalar (codes "striped_ext_list") ∷ seq_start ∷ interleaved_events fm n 0
          ++ (seq_end ∷ []))
        ++ closing)
      one
    ∙ ap (striped_start fm)
        (strips_tail (extents_events (ie_strips fm 0) (loop_bound (ie_nstrips fm 0)) 0) closing)

pub striped_tail :
    (fm : LogFmap)
    → fm.fmap_ext_type ≡ ext_interleave
    → fmap_niext fm ≡ 1
    → ie_nstrips fm 0 ≤ 16
    → list_events fm ++ closing
      ≡ striped_start fm (
          extents_events (ie_strips fm 0) (ie_nstrips fm 0) 0
          ++ (seq_end ∷ map_end ∷ seq_end ∷ closing))
unfolding list_events
striped_tail fm type one small =
    let other : (fm.fmap_ext_type == ext_simple) ≡ false = ground arith in
    let striped : (fm.fmap_ext_type == ext_interleave) ≡ true = ground arith in
    rw (other, striped)
      (one_interleaved fm one
        ∙ ap
            (λ n.
              striped_start fm
                (extents_events (ie_strips fm 0) n 0 ++ (seq_end ∷ map_end ∷ seq_end ∷ closing)))
            (loop_bound_small (ie_nstrips fm 0) small))
