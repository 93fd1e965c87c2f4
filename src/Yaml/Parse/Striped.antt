-- ===== src/Yaml/Parse/Striped.antt =====
-- `famfs_parse_file_striped_ext_list` of src/famfs_yaml.c
pub mod Laws
use famfs.Prelude.{
  ℕ, suc, ◌+◌, ◌*◌, Bool, Option, none, some, ◌>>=◌, List, [], ◌∷◌, ◌==◌, leb, store, if◌then◌else◌,
}
use famfs.Prelude.Lists.{length}
use famfs.Prelude.Text.{codes}
use famfs.Meta.{Rc, LogFmap}
use famfs.Meta.Fmap.{ie_nstrips}
use famfs.Yaml.{Event, seq_start, seq_end, map_start, map_end, scalar}
use famfs.Yaml.Numbers.{strtoull}
use famfs.Yaml.Parse.{Parsed, parsed, error, Turn, again, finished, loop, expect, expect_scalar}
use famfs.Yaml.Parse.{expect_end}
use famfs.Yaml.Parse.Extents.{ExtentList, is_key, famfs_parse_file_simple_ext_list}

pub record StripedList : Type 0 where
  pub fmap : LogFmap
  pub ie_index : ℕ

pub data StripedKey : Type 0 where
  chunk_size_key nstrips_key strips_key unknown_key : StripedKey

unfoldable pub striped_key : List ℕ → StripedKey
striped_key text =
    if is_key text (codes "chunk_size")
    then chunk_size_key
    else if is_key text (codes "nstrips")
    then nstrips_key
    else if is_key text (codes "simple_ext_list")
    then strips_key
    else unknown_key

abbrev pub with_words : StripedList → (ℕ → ℕ) → StripedList
with_words l words = record l { fmap = record l.fmap { words = words } }

unfoldable pub striped_value : StripedList → ℕ → Option (List ℕ × List Event) → Turn StripedList
striped_value l slot none = finished (error Rc.failed l)
striped_value l slot (some (text, rest)) =
    again (with_words l (store l.fmap.words (50 * l.ie_index + slot) (strtoull text))) rest

-- After the strips of one extent were read: as many as `ie_nstrips` says.
unfoldable pub after_strips : StripedList → Parsed ExtentList → Turn StripedList
after_strips l (error rc strips) = finished (error rc (with_words l strips.words))
after_strips l (parsed strips rest) =
    let m = with_words l strips.words in
    if strips.ext_index == ie_nstrips m.fmap m.ie_index
    then again (record m { ie_index = m.ie_index + 1 }) rest
    else finished (error Rc.einval m)

unfoldable pub striped_entry : ℕ → StripedList → StripedKey → List Event → Turn StripedList
striped_entry max_strips l chunk_size_key events = striped_value l 1 (expect_scalar events)
striped_entry max_strips l nstrips_key events = striped_value l 0 (expect_scalar events)
striped_entry max_strips l strips_key events =
    after_strips l
      (famfs_parse_file_simple_ext_list (50 * l.ie_index + 2) max_strips l.fmap.words events)
striped_entry max_strips l unknown_key events = again l events

-- The number of extents is held against the limit on strips.
unfoldable pub striped_turn : ℕ → StripedList → List Event → Turn StripedList
striped_turn max_strips l [] = finished (error Rc.failed l)
striped_turn max_strips l (scalar text ∷ events) =
    striped_entry max_strips l (striped_key text) events
striped_turn max_strips l (map_start ∷ events) =
    if leb max_strips l.ie_index then finished (error Rc.eoverflow l) else again l events
striped_turn max_strips l (map_end ∷ events) = again (record l { ie_index = l.ie_index + 1 }) events
striped_turn max_strips l (seq_end ∷ events) = finished (expect_end map_end l events)
striped_turn max_strips l (_ ∷ events) = again l events

unfoldable pub striped_from : ℕ → StripedList → Option (List Event) → Parsed StripedList
striped_from max_strips l none = error Rc.failed l
striped_from max_strips l (some events) =
    loop (striped_turn max_strips) (suc (length events)) l events

unfoldable pub famfs_parse_file_striped_ext_list : ℕ → LogFmap → List Event → Parsed StripedList
famfs_parse_file_striped_ext_list max_strips fm events =
    striped_from max_strips (record { fmap = fm; ie_index = 0 })
      (expect seq_start events >>= expect map_start)
