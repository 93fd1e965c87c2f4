-- ===== src/Yaml/Parse/Extents.antt =====
-- `famfs_parse_file_simple_ext_list` of src/famfs_yaml.c. `base` is the address of the array of
-- extents among the words of the map.
pub mod Laws
pub mod Limit
use famfs.Prelude.{
  ℕ, suc, ◌+◌, ◌*◌, Bool, true, false, ◌&&◌, Option, none, some, ◌>>=◌, List, [], ◌∷◌, leb, store,
  if◌then◌else◌,
}
use famfs.Prelude.Lists.{length, take, list_eq}
use famfs.Prelude.Text.{codes}
use famfs.Meta.{Rc}
use famfs.Yaml.{Event, seq_start, seq_end, map_start, map_end, scalar}
use famfs.Yaml.Numbers.{strtoull}
use famfs.Yaml.Parse.{Parsed, parsed, error, Turn, again, finished, loop, expect, expect_scalar}
use famfs.Yaml.Parse.{expect_end}

pub record ExtentList : Type 0 where
  pub words : ℕ → ℕ
  pub ext_index : ℕ
  pub got_ofs : Bool
  pub got_len : Bool

-- `MAX_KEY - 1`
abbrev pub max_key : ℕ
max_key = 79

-- `current_key` is the first `max_key` bytes of the scalar.
abbrev pub is_key : List ℕ → List ℕ → Bool
is_key text key = list_eq (take max_key text) key

pub data ExtentKey : Type 0 where
  ofs_key len_key devindex_key unknown_key : ExtentKey

unfoldable pub extent_key : List ℕ → ExtentKey
extent_key text =
    if is_key text (codes "offset")
    then ofs_key
    else if is_key text (codes "length")
    then len_key
    else if is_key text (codes "devindex")
    then devindex_key
    else unknown_key

abbrev pub set_word : ℕ → ExtentList → ℕ → ℕ → ExtentList
set_word base l slot v = record l { words = store l.words (base + 3 * l.ext_index + slot) v }

-- The value after a key, stored in the extent that `ext_index` names.
unfoldable pub extent_value : ℕ → ExtentList → ℕ → Option (List ℕ × List Event) → Turn ExtentList
extent_value base l slot none = finished (error Rc.failed l)
extent_value base l slot (some (text, rest)) = again (set_word base l slot (strtoull text)) rest

unfoldable pub extent_entry : ℕ → ExtentList → ExtentKey → List Event → Turn ExtentList
extent_entry base l ofs_key events =
    extent_value base (record l { got_ofs = true }) 1 (expect_scalar events)
extent_entry base l len_key events =
    extent_value base (record l { got_len = true }) 2 (expect_scalar events)
extent_entry base l devindex_key events = extent_value base l 0 (expect_scalar events)
extent_entry base l unknown_key events = again l events

unfoldable pub extent_turn : ℕ → ℕ → ExtentList → List Event → Turn ExtentList
extent_turn base max_extents l [] = finished (error Rc.failed l)
extent_turn base max_extents l (scalar text ∷ events) = extent_entry base l (extent_key text) events
extent_turn base max_extents l (map_start ∷ events) =
    if leb max_extents l.ext_index then finished (error Rc.eoverflow l) else again l events
extent_turn base max_extents l (map_end ∷ events) =
    if l.got_len && l.got_ofs
    then again (record l { ext_index = l.ext_index + 1; got_ofs = false; got_len = false }) events
    else finished (error Rc.einval l)
extent_turn base max_extents l (seq_end ∷ events) = finished (expect_end map_end l events)
extent_turn base max_extents l (_ ∷ events) = again l events

abbrev pub no_extents : (ℕ → ℕ) → ExtentList
no_extents words = record { words = words; ext_index = 0; got_ofs = false; got_len = false }

unfoldable pub extents_from : ℕ → ℕ → (ℕ → ℕ) → Option (List Event) → Parsed ExtentList
extents_from base max_extents words none = error Rc.failed (no_extents words)
extents_from base max_extents words (some events) =
    loop (extent_turn base max_extents) (suc (length events)) (no_extents words) events

-- The words after the call, with `*nparsed_out` in `ext_index`.
unfoldable pub famfs_parse_file_simple_ext_list : ℕ → ℕ → (ℕ → ℕ) → List Event → Parsed ExtentList
famfs_parse_file_simple_ext_list base max_extents words events =
    extents_from base max_extents words (expect seq_start events >>= expect map_start)
