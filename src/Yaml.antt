-- ===== src/Yaml.antt =====
-- src/famfs_yaml.c. Here: the events of libyaml, and libyaml itself, which is not part of this
-- repository, as a record of functions.
pub mod Numbers
pub mod Tree
pub mod Emit
pub mod Parse
pub mod RoundTrip
pub mod Stat
use famfs.Prelude.{ℕ, Bool, true, false, List, [], ◌∷◌, if◌then◌else◌}

-- `yaml_event_type_t`. The value of a scalar is the bytes before its NUL; `other` is an alias.
pub data Event : Type 0 where
  stream_start stream_end document_start document_end : Event
  seq_start seq_end map_start map_end other : Event
  scalar : List ℕ → Event

-- `emit` is the initializer of an event and `yaml_emitter_emit` of it, false if either fails.
-- `read_events` is what successive calls of `yaml_parser_parse` return for a file: the events up to
-- the first error, or up to the end of the stream.
pub record Libyaml : Type 1 where
  pub State : Type 0
  pub Text : Type 0
  pub emitter_ready : Bool
  pub start : State
  pub emit : State → Event → State × Bool
  pub written : State → Text
  pub parser_ready : Bool
  pub read_events : Text → List Event

module _ (y : Libyaml) where
  -- One event after another, until one is refused.
  unfoldable pub emit_all : y.State → List Event → y.State × Bool
  emit_all s [] = (s, true)
  emit_all s (e ∷ es) = let r = y.emit s e in let more = emit_all r.0 es in if r.1 then more else r

  -- The statements after a call whose result is tested.
  abbrev pub and_then : y.State × Bool → (y.State → y.State × Bool) → y.State × Bool
  and_then (s, true) f = f s
  and_then (s, false) f = (s, false)
