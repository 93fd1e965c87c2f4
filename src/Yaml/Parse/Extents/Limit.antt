-- ===== src/Yaml/Parse/Extents/Limit.antt =====
-- The reader of simple extents on a list that is longer than its limit.
use famfs.Prelude.{ℕ, zero, suc, ◌+◌, ◌<◌, ◌≡◌, ap, List, ◌∷◌, ◌++◌, arith}
use famfs.Prelude.Lists.{length}
use famfs.Meta.{Rc, SimpleExtent}
use famfs.Yaml.{Event, seq_start, map_start}
use famfs.Yaml.Emit.{extents_events}
use famfs.Yaml.Parse.{error, finished, expect, event_type}
use famfs.Yaml.Parse.Loop.{EndsIn, one_turn, last_turn}
use famfs.Yaml.Parse.Extents.Laws.{
  FitsWord, at_extent, put_extent, fill, body, body_read, start_read,
}
use famfs.Yaml.Parse.Extents.{extent_turn, extents_from, famfs_parse_file_simple_ext_list}

limit_read :
    (base max i : ℕ) (words : ℕ → ℕ) (rest : List Event)
    → i ≡ max
    → extent_turn base max (at_extent words i) (map_start ∷ rest)
      ≡ finished (error Rc.eoverflow (at_extent words max))
unfolding extent_turn
limit_read base max i words rest e =
    let named = ap (λ j. finished (error Rc.eoverflow (at_extent words j))) e in ground arith

-- `room` more extents are stored, the next is refused.
limited_read :
    (base max : ℕ) (f : ℕ → SimpleExtent) (room left i : ℕ) (words : ℕ → ℕ) (rest : List Event)
    → i + room ≡ max
    → room < left
    → ((k : ℕ) → k < i + left → FitsWord (f k))
    → EndsIn
        (extent_turn base max)
        (at_extent words i)
        (extents_events f left i ++ rest)
        (error Rc.eoverflow (at_extent (fill base f room i words) max))
unfolding extents_events fill
limited_read base max f room zero i words rest e h fits = absurd (omega arith)
limited_read base max f zero (suc left) i words rest e h fits =
    let more = body (f i) (extents_events f left (i + 1) ++ rest) in
    last_turn (extent_turn base max) (at_extent words i) (map_start ∷ more)
      (error Rc.eoverflow (at_extent words max)) (limit_read base max i words more (omega arith))
limited_read base max f (suc room) (suc left) i words rest e h fits =
    let turn = extent_turn base max in
    let words' = put_extent base i (f i) words in
    let p = error Rc.eoverflow (at_extent (fill base f room (i + 1) words') max) in
    let more = extents_events f left (i + 1) ++ rest in
    let read =
      limited_read base max f room left (i + 1) words' rest (omega arith) (omega arith)
        (λ k hk. fits k (omega arith)) in
    one_turn turn (at_extent words i) (at_extent words i) (map_start ∷ body (f i) more)
      (body (f i) more) p (start_read base max i words (body (f i) more) (omega arith))
      (omega arith) (body_read base max i words (f i) more p (fits i (omega arith)) read)

-- A written list of more extents than the limit, which is at least 1, is refused with -EOVERFLOW,
-- whatever follows it: as many as the limit are stored, in their order, and no word is written
-- beyond them.
pub too_many_refused :
    (base room : ℕ) (f : ℕ → SimpleExtent) (n : ℕ) (words : ℕ → ℕ) (rest : List Event)
    → suc room < n
    → ((k : ℕ) → k < n → FitsWord (f k))
    → famfs_parse_file_simple_ext_list base
        (suc room)
        words
        (seq_start ∷ extents_events f n 0 ++ rest)
      ≡ error Rc.eoverflow (at_extent (fill base f (suc room) 0 words) (suc room))
unfolding famfs_parse_file_simple_ext_list extents_from expect event_type extents_events fill
too_many_refused base room f zero words rest h fits = absurd (omega arith)
too_many_refused base room f (suc left) words rest h fits =
    let words' = put_extent base 0 (f 0) words in
    let p = error Rc.eoverflow (at_extent (fill base f room 1 words') (suc room)) in
    let more = extents_events f left 1 ++ rest in
    let read =
      limited_read base (suc room) f room left 1 words' rest (omega arith) (omega arith)
        (λ k hk. fits k (omega arith)) in
    body_read base (suc room) 0 words (f 0) more p (fits 0 (omega arith)) read
      (suc (length (body (f 0) more))) (omega arith)
