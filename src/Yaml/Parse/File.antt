-- ===== src/Yaml/Parse/File.antt =====
-- `famfs_parse_file_yaml` and `famfs_parse_shadow_yaml` of src/famfs_yaml.c. The structure is zeroed
-- before a call, so that a path that fills its buffer ends at the last byte.
pub mod Laws
use famfs.Prelude.{
  ℕ, suc, ◌-◌, Bool, Option, none, some, ◌>>=◌, List, [], ◌∷◌, ◌==◌, u32, if◌then◌else◌,
}
use famfs.Prelude.Lists.{length, take, list_eq}
use famfs.Prelude.Text.{codes}
use famfs.Meta.{Rc, LogFmap, LogFileMeta, ext_simple, ext_interleave, max_pathlen}
use famfs.Meta.Fmap.{fmap_nextents}
use famfs.Yaml.{Event, stream_start, stream_end, document_start, document_end, map_start, map_end}
use famfs.Yaml.{scalar, Libyaml}
use famfs.Yaml.Numbers.{strtoull}
use famfs.Yaml.Parse.{Parsed, parsed, error, Turn, again, finished, loop, expect, expect_scalar}
use famfs.Yaml.Parse.Extents.{ExtentList, famfs_parse_file_simple_ext_list}
use famfs.Yaml.Parse.Striped.{StripedList, famfs_parse_file_striped_ext_list}

pub data FileKey : Type 0 where
  path_key size_key flags_key mode_key uid_key gid_key nextents_key : FileKey
  simple_key striped_key unknown_key : FileKey

unfoldable pub file_key : List ℕ → FileKey
file_key text =
    if list_eq text (codes "path")
    then path_key
    else if list_eq text (codes "size")
    then size_key
    else if list_eq text (codes "flags")
    then flags_key
    else if list_eq text (codes "mode")
    then mode_key
    else if list_eq text (codes "uid")
    then uid_key
    else if list_eq text (codes "gid")
    then gid_key
    else if list_eq text (codes "nextents")
    then nextents_key
    else if list_eq text (codes "simple_ext_list")
    then simple_key
    else if list_eq text (codes "striped_ext_list")
    then striped_key
    else unknown_key

abbrev pub with_fmap : LogFileMeta → LogFmap → LogFileMeta
with_fmap fm map = record fm { fm_fmap = map }

abbrev pub with_type : LogFileMeta → ℕ → LogFileMeta
with_type fm t = with_fmap fm (record fm.fm_fmap { fmap_ext_type = t })

-- `strncpy` and `strtoull` into the field that a key names
unfoldable pub set_field : LogFileMeta → FileKey → List ℕ → LogFileMeta
set_field fm path_key text = record fm { fm_relpath = take (max_pathlen - 1) text }
set_field fm size_key text = record fm { fm_size = strtoull text }
set_field fm flags_key text = record fm { fm_flags = u32 (strtoull text) }
set_field fm mode_key text = record fm { fm_mode = u32 (strtoull text) }
set_field fm uid_key text = record fm { fm_uid = u32 (strtoull text) }
set_field fm gid_key text = record fm { fm_gid = u32 (strtoull text) }
set_field fm nextents_key text =
    with_fmap fm (record fm.fm_fmap { fmap_count = u32 (strtoull text) })
set_field fm _ text = fm

unfoldable pub file_value : LogFileMeta → FileKey → Option (List ℕ × List Event) → Turn LogFileMeta
file_value fm key none = finished (error Rc.failed fm)
file_value fm key (some (text, rest)) = again (set_field fm key text) rest

-- After the simple extents were read: as many as `fmap_nextents` says.
unfoldable pub after_simple : LogFileMeta → Parsed ExtentList → Turn LogFileMeta
after_simple fm (error rc l) =
    finished (error rc (with_fmap fm (record fm.fm_fmap { words = l.words })))
after_simple fm (parsed l rest) =
    let read = with_fmap fm (record fm.fm_fmap { words = l.words }) in
    if l.ext_index == fmap_nextents fm.fm_fmap
    then again read rest
    else finished (error Rc.einval read)

unfoldable pub after_striped : LogFileMeta → Parsed StripedList → Turn LogFileMeta
after_striped fm (error rc l) = finished (error rc (with_fmap fm l.fmap))
after_striped fm (parsed l rest) = again (with_fmap fm l.fmap) rest

unfoldable pub file_entry : ℕ → ℕ → LogFileMeta → FileKey → List Event → Turn LogFileMeta
file_entry max_extents max_strips fm simple_key events =
    let typed = with_type fm ext_simple in
    after_simple typed (famfs_parse_file_simple_ext_list 0 max_extents typed.fm_fmap.words events)
file_entry max_extents max_strips fm striped_key events =
    let typed = with_type fm ext_interleave in
    after_striped typed (famfs_parse_file_striped_ext_list max_strips typed.fm_fmap events)
file_entry max_extents max_strips fm unknown_key events = finished (error Rc.einval fm)
file_entry max_extents max_strips fm key events = file_value fm key (expect_scalar events)

unfoldable pub file_turn : ℕ → ℕ → LogFileMeta → List Event → Turn LogFileMeta
file_turn max_extents max_strips fm [] = finished (error Rc.failed fm)
file_turn max_extents max_strips fm (scalar text ∷ events) =
    file_entry max_extents max_strips fm (file_key text) events
file_turn max_extents max_strips fm (map_end ∷ events) = finished (parsed fm events)
file_turn max_extents max_strips fm (_ ∷ events) = again fm events

unfoldable pub file_from : ℕ → ℕ → LogFileMeta → Option (List Event) → Parsed LogFileMeta
file_from max_extents max_strips fm none = error Rc.failed fm
file_from max_extents max_strips fm (some events) =
    loop (file_turn max_extents max_strips) (suc (length events)) fm events

unfoldable pub famfs_parse_file_yaml : ℕ → ℕ → LogFileMeta → List Event → Parsed LogFileMeta
famfs_parse_file_yaml max_extents max_strips fm events =
    file_from max_extents max_strips fm (expect map_start events)

unfoldable pub end_document : LogFileMeta → Option (List Event) → Rc × LogFileMeta
end_document fm none = (Rc.failed, fm)
end_document fm (some rest) = (Rc.ok, fm)

unfoldable pub after_file : Parsed LogFileMeta → Rc × LogFileMeta
after_file (error rc fm) = (rc, fm)
after_file (parsed fm rest) = end_document fm (expect document_end rest >>= expect stream_end)

-- The stanza that the first key of the document names; any other than `file` is passed over.
unfoldable pub first_stanza : ℕ → ℕ → LogFileMeta → Option (List ℕ × List Event) → Rc × LogFileMeta
first_stanza max_extents max_strips fm none = (Rc.failed, fm)
first_stanza max_extents max_strips fm (some (text, rest)) =
    if list_eq (codes "file") text
    then after_file (famfs_parse_file_yaml max_extents max_strips fm rest)
    else after_file (parsed fm rest)

unfoldable pub whole_document : ℕ → ℕ → LogFileMeta → List Event → Rc × LogFileMeta
whole_document max_extents max_strips fm events =
    first_stanza max_extents max_strips fm
      (expect stream_start events >>= expect document_start >>= expect map_start >>= expect_scalar)

module _ (y : Libyaml) where
  unfoldable pub famfs_parse_shadow_yaml : y.Text → LogFileMeta → ℕ → ℕ → Rc × LogFileMeta
  famfs_parse_shadow_yaml file fm max_extents max_strips =
      if y.parser_ready
      then whole_document max_extents max_strips fm (y.read_events file)
      else (Rc.failed, fm)
