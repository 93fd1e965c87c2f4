-- ===== src/Yaml/Parse/Fuel/Lists.antt =====
-- The turns of the reader of simple extents, and what the reader leaves.
use famfs.Prelude.{ℕ, suc, true, ◌&&◌, List, [], ◌∷◌, arith, Bool-cases, inl, inr, leb}
use famfs.Prelude.Lists.{length}
use famfs.Yaml.{Event, stream_start, stream_end, document_start, document_end, seq_start, seq_end}
use famfs.Yaml.{map_start, map_end, other, scalar}
use famfs.Yaml.Parse.{expect_scalar}
use famfs.Yaml.Parse.{expect_end}
use famfs.Yaml.Parse.Fuel.{
  Leaves, Shortens, Leaves-le, expect_end-Leaves, value-Shortens, AllShorten, loop-Leaves,
  opened-Leaves,
}
use famfs.Yaml.Parse.Extents.{
  ExtentList, ExtentKey, extent_key, extent_value, extent_entry, extent_turn, extents_from,
  no_extents, famfs_parse_file_simple_ext_list,
}
use famfs.Yaml.Parse.Extents

extent_value-Shortens :
    (base : ℕ) (l : ExtentList) (slot : ℕ) (events : List Event)
    → Shortens (suc (length events)) (extent_value base l slot (expect_scalar events))
unfolding extent_value
extent_value-Shortens base l slot events =
    value-Shortens (extent_value base l slot) (λ n. tt) (λ text rest. omega arith) events

extent_entry-Shortens :
    (base : ℕ) (l : ExtentList) (key : ExtentKey) (events : List Event)
    → Shortens (suc (length events)) (extent_entry base l key events)
unfolding extent_entry
extent_entry-Shortens base l Extents.ofs_key events =
    extent_value-Shortens base (record l { got_ofs = true }) 1 events
extent_entry-Shortens base l Extents.len_key events =
    extent_value-Shortens base (record l { got_len = true }) 2 events
extent_entry-Shortens base l Extents.devindex_key events = extent_value-Shortens base l 0 events
extent_entry-Shortens base l Extents.unknown_key events = omega arith

pub extent_turn-Shortens : (base max : ℕ) → AllShorten (extent_turn base max)
unfolding extent_turn
extent_turn-Shortens base max l [] = tt
extent_turn-Shortens base max l (scalar text ∷ events) =
    extent_entry-Shortens base l (extent_key text) events
extent_turn-Shortens base max l (map_start ∷ events) = elim (Bool-cases (leb max l.ext_index)) [
  | inl y ↦ rw y tt
  | inr n ↦ rw n omega arith
]
extent_turn-Shortens base max l (map_end ∷ events) = elim (Bool-cases (l.got_len && l.got_ofs)) [
  | inl y ↦ rw y omega arith
  | inr n ↦ rw n tt
]
extent_turn-Shortens base max l (seq_end ∷ events) =
    Leaves-le (length events) (suc (length events)) (expect_end map_end l events) (omega arith)
      (expect_end-Leaves map_end l events)
extent_turn-Shortens base max l (stream_start ∷ events) = omega arith
extent_turn-Shortens base max l (stream_end ∷ events) = omega arith
extent_turn-Shortens base max l (document_start ∷ events) = omega arith
extent_turn-Shortens base max l (document_end ∷ events) = omega arith
extent_turn-Shortens base max l (seq_start ∷ events) = omega arith
extent_turn-Shortens base max l (other ∷ events) = omega arith

pub simple_list-Leaves :
    (base max : ℕ) (words : ℕ → ℕ) (events : List Event)
    → Leaves (length events) (famfs_parse_file_simple_ext_list base max words events)
unfolding famfs_parse_file_simple_ext_list extents_from
simple_list-Leaves base max words events =
    opened-Leaves (extents_from base max words) tt
      (λ rest.
        loop-Leaves (extent_turn base max) (extent_turn-Shortens base max) (suc (length rest))
          (no_extents words) rest)
      seq_start map_start events
