-- ===== src/Yaml/Parse/Alloc.antt =====
-- `famfs_parse_alloc_yaml` of src/famfs_yaml.c, which reads the interleaving of `.meta/.alloc.cfg`,
-- with `get_multiplier` of src/famfs_misc.c.
pub mod Laws
use famfs.Prelude.{
  ℕ, suc, ◌*◌, ◌||◌, Option, none, some, ◌>>=◌, List, [], ◌∷◌, ◌==◌, u64, if◌then◌else◌,
}
use famfs.Prelude.Lists.{length, take, list_eq}
use famfs.Prelude.Text.{codes}
use famfs.Meta.{Rc}
use famfs.Alloc.Param.{InterleaveParam}
use famfs.Yaml.{Event, stream_start, stream_end, document_start, document_end, map_start, map_end}
use famfs.Yaml.{scalar, Libyaml}
use famfs.Yaml.Numbers.{strtoull, strtoull_end}
use famfs.Yaml.Parse.{Parsed, parsed, error, Turn, again, finished, loop, expect, expect_scalar}

-- The unit of one character; any other is none.
unfoldable pub unit : ℕ → ℕ
unit c =
    if c == b'k' || c == b'K'
    then 1024
    else if c == b'm' || c == b'M'
    then 1024 * 1024
    else if c == b'g' || c == b'G'
    then 1024 * 1024 * 1024
    else 1

-- `none` is -1: something follows the unit.
unfoldable pub get_multiplier : List ℕ → Option ℕ
get_multiplier [] = some 1
get_multiplier (c ∷ []) = some (unit c)
get_multiplier (c ∷ more ∷ rest) = none

pub data StripeKey : Type 0 where
  nbuckets_key nstrips_key chunk_size_key unknown_key : StripeKey

unfoldable pub stripe_key : List ℕ → StripeKey
stripe_key text =
    if list_eq text (codes "nbuckets")
    then nbuckets_key
    else if list_eq text (codes "nstrips")
    then nstrips_key
    else if list_eq text (codes "chunk_size")
    then chunk_size_key
    else unknown_key

-- The number multiplied, unless the multiplier is an error.
unfoldable pub scaled : ℕ → Option ℕ → ℕ
scaled n none = n
scaled n (some unit) = u64 (n * unit)

-- The value is copied to a buffer of 256 bytes.
unfoldable pub sized_value : List ℕ → ℕ
sized_value text = let r = strtoull_end (take 255 text) in scaled r.0 (get_multiplier r.1)

unfoldable pub set_param : InterleaveParam → StripeKey → List ℕ → InterleaveParam
set_param p nbuckets_key text = record p { nbuckets = strtoull text }
set_param p nstrips_key text = record p { nstrips = strtoull text }
set_param p chunk_size_key text = record p { chunk_size = sized_value text }
set_param p unknown_key text = p

unfoldable pub stripe_value :
    InterleaveParam → StripeKey → Option (List ℕ × List Event) → Turn InterleaveParam
stripe_value p key none = finished (error Rc.failed p)
stripe_value p key (some (text, rest)) = again (set_param p key text) rest

unfoldable pub stripe_entry : InterleaveParam → StripeKey → List Event → Turn InterleaveParam
stripe_entry p unknown_key events = finished (error Rc.einval p)
stripe_entry p key events = stripe_value p key (expect_scalar events)

unfoldable pub stripe_turn : InterleaveParam → List Event → Turn InterleaveParam
stripe_turn p [] = finished (error Rc.failed p)
stripe_turn p (scalar text ∷ events) = stripe_entry p (stripe_key text) events
stripe_turn p (map_end ∷ events) = finished (parsed p events)
stripe_turn p (_ ∷ events) = again p events

unfoldable pub stripe_from : InterleaveParam → Option (List Event) → Parsed InterleaveParam
stripe_from p none = error Rc.failed p
stripe_from p (some events) = loop stripe_turn (suc (length events)) p events

unfoldable pub famfs_parse_stripe_config_yaml :
    InterleaveParam → List Event → Parsed InterleaveParam
famfs_parse_stripe_config_yaml p events = stripe_from p (expect map_start events)

unfoldable pub end_alloc : InterleaveParam → Option (List Event) → Rc × InterleaveParam
end_alloc p none = (Rc.failed, p)
end_alloc p (some rest) = (Rc.ok, p)

unfoldable pub after_stripe : Parsed InterleaveParam → Rc × InterleaveParam
after_stripe (error rc p) = (rc, p)
after_stripe (parsed p rest) =
    end_alloc p (expect map_end rest >>= expect document_end >>= expect stream_end)

unfoldable pub alloc_stanza : InterleaveParam → Option (List ℕ × List Event) → Rc × InterleaveParam
alloc_stanza p none = (Rc.failed, p)
alloc_stanza p (some (text, rest)) =
    if list_eq (codes "interleaved_alloc") text
    then after_stripe (famfs_parse_stripe_config_yaml p rest)
    else after_stripe (parsed p rest)

unfoldable pub whole_config : InterleaveParam → List Event → Rc × InterleaveParam
whole_config p events =
    alloc_stanza p
      (expect stream_start events >>= expect document_start >>= expect map_start >>= expect_scalar)

module _ (y : Libyaml) where
  unfoldable pub famfs_parse_alloc_yaml : y.Text → InterleaveParam → Rc × InterleaveParam
  famfs_parse_alloc_yaml file p =
      if y.parser_ready then whole_config p (y.read_events file) else (Rc.failed, p)
