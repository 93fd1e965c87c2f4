-- ===== src/Yaml/Parse.antt =====
-- The readers of src/famfs_yaml.c. Each works on the list of the events that are still to come; the
-- end of the list is a parser error. The event lists of libyaml are nested, so no reader gets behind
-- the end of its stream, where libyaml would return events of no type for ever.
pub mod Extents
pub mod Striped
pub mod File
pub mod Alloc
pub mod Loop
pub mod Fuel
use famfs.Prelude.{ℕ, zero, suc, Bool, Option, none, some, List, [], ◌∷◌, ◌==◌, if◌then◌else◌}
use famfs.Meta.{Rc}
use famfs.Yaml.{Event, stream_start, stream_end, document_start, document_end, seq_start, seq_end}
use famfs.Yaml.{map_start, map_end, other, scalar}

-- The numbers of `yaml_event_type_t`
unfoldable pub event_type : Event → ℕ
event_type stream_start = 1
event_type stream_end = 2
event_type document_start = 3
event_type document_end = 4
event_type other = 5
event_type (scalar text) = 6
event_type seq_start = 7
event_type seq_end = 8
event_type map_start = 9
event_type map_end = 10

-- `GET_YAML_EVENT_OR_GOTO`: the events after one of this type; `none` is the result -1.
unfoldable pub expect : Event → List Event → Option (List Event)
expect e [] = none
expect e (next ∷ rest) = if event_type next == event_type e then some rest else none

-- `GET_YAML_EVENT_OR_GOTO` of a scalar, whose value is used
unfoldable pub expect_scalar : List Event → Option (List ℕ × List Event)
expect_scalar (scalar text ∷ rest) = some (text, rest)
expect_scalar _ = none

-- What a reader returns: 0 and the events that it left, or an error; with what it had stored.
pub data Parsed {ℓ} (A : Type ℓ) : Type ℓ where
  parsed : A → List Event → Parsed A
  error : Rc → A → Parsed A

-- One turn of a reader's `while (!done)`
pub data Turn {ℓ} (A : Type ℓ) : Type ℓ where
  again : A → List Event → Turn A
  finished : Parsed A → Turn A

module _ {ℓ} {A : Type ℓ} where
  -- Every turn takes an event, so more fuel than there are events is enough.
  unfoldable pub loop : (A → List Event → Turn A) → ℕ → A → List Event → Parsed A
  loop turn zero a events = error Rc.failed a
  loop turn (suc fuel) a events = elim (turn a events) [
    | again b rest ↦ loop turn fuel b rest
    | finished p ↦ p
  ]

  -- The last event of a stanza, after which the reader returns.
  unfoldable pub expect_end : Event → A → List Event → Parsed A
  expect_end e a events = elim (expect e events) [
    | none ↦ error Rc.failed a
    | some rest ↦ parsed a rest
  ]
