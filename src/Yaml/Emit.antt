-- ===== src/Yaml/Emit.antt =====
-- The writers of src/famfs_yaml.c: the file section of a shadow file, with either extent list.
pub mod Document
pub mod Events
pub mod Laws
use famfs.Prelude.{
  ℕ, zero, suc, ◌+◌, ◌^◌, Bool, true, false, Option, none, some, List, [], ◌∷◌, ◌++◌, ◌==◌, ltb,
  u32, if◌then◌else◌,
}
use famfs.Prelude.Text.{codes}
use famfs.Meta.{SimpleExtent, LogFmap, LogFileMeta, ext_simple, ext_interleave}
use famfs.Meta.Fmap.{fmap_nextents, fmap_niext, se, ie_nstrips, ie_chunk_size, ie_strips}
use famfs.Yaml.{Event, stream_start, stream_end, document_start, document_end, seq_start, seq_end}
use famfs.Yaml.{map_start, map_end, scalar, Libyaml, emit_all, and_then}
use famfs.Yaml.Numbers.{print_signed, print_hex, print_octal}

-- The bound of a loop that counts with an `int`, whose body never runs if the bound is negative.
unfoldable pub loop_bound : ℕ → ℕ
loop_bound n = if ltb (u32 n) (2 ^ 31) then u32 n else 0

abbrev pub extent_events : SimpleExtent → List Event
extent_events e =
    map_start
    ∷ scalar (codes "devindex")
    ∷ scalar (print_signed 64 e.se_devindex)
    ∷ scalar (codes "offset")
    ∷ scalar (print_hex e.se_offset)
    ∷ scalar (codes "length")
    ∷ scalar (print_hex e.se_len)
    ∷ map_end
    ∷ []

-- The loop over the extents, with `left` of them from i on.
unfoldable pub extents_events : (ℕ → SimpleExtent) → ℕ → ℕ → List Event
extents_events f zero i = []
extents_events f (suc left) i = extent_events (f i) ++ extents_events f left (i + 1)

abbrev pub interleaved_fields : LogFmap → ℕ → List Event
interleaved_fields fm i =
    map_start
    ∷ scalar (codes "nstrips")
    ∷ scalar (print_signed 64 (ie_nstrips fm i))
    ∷ scalar (codes "chunk_size")
    ∷ scalar (print_hex (ie_chunk_size fm i))
    ∷ []

abbrev pub section_events : LogFileMeta → List Event
section_events fm =
    scalar (codes "path")
    ∷ scalar fm.fm_relpath
    ∷ scalar (codes "size")
    ∷ scalar (print_signed 64 fm.fm_size)
    ∷ scalar (codes "flags")
    ∷ scalar (print_signed 32 fm.fm_flags)
    ∷ scalar (codes "mode")
    ∷ scalar (print_octal fm.fm_mode)
    ∷ scalar (codes "uid")
    ∷ scalar (print_signed 32 fm.fm_uid)
    ∷ scalar (codes "gid")
    ∷ scalar (print_signed 32 fm.fm_gid)
    ∷ scalar (codes "nextents")
    ∷ scalar (print_signed 32 (fmap_nextents fm.fm_fmap))
    ∷ []

abbrev pub opening : List Event
opening = stream_start ∷ document_start ∷ map_start ∷ scalar (codes "file") ∷ map_start ∷ []

abbrev pub closing : List Event
closing = map_end ∷ map_end ∷ document_end ∷ stream_end ∷ []

module _ (y : Libyaml) where
  unfoldable pub emit_simple_ext_list : y.State → (ℕ → SimpleExtent) → ℕ → y.State × Bool
  emit_simple_ext_list s f nextents = emit_all y s (
      scalar (codes "simple_ext_list") ∷ seq_start ∷ extents_events f (loop_bound nextents) 0
      ++ (seq_end ∷ []))

  -- The loop over the interleaved extents, with `left` of them from i on; whether the strips were
  -- written is not looked at.
  unfoldable pub emit_interleaved : LogFmap → ℕ → ℕ → y.State → y.State × Bool
  emit_interleaved fm zero i s = (s, true)
  emit_interleaved fm (suc left) i s = and_then y (emit_all y s (interleaved_fields fm i)) (λ s1.
      let s2 = (emit_simple_ext_list s1 (ie_strips fm i) (ie_nstrips fm i)).0 in
      and_then y (emit_all y s2 (map_end ∷ [])) (emit_interleaved fm left (i + 1)))

  unfoldable pub emit_striped_ext_list : y.State → LogFmap → y.State × Bool
  emit_striped_ext_list s fm =
      and_then y (emit_all y s (scalar (codes "striped_ext_list") ∷ seq_start ∷ [])) (λ s1.
        and_then y (emit_interleaved fm (fmap_niext fm) 0 s1) (λ s2. emit_all y s2 (seq_end ∷ [])))

  -- The `switch` on the extent type, which the section ends with.
  unfoldable pub emit_list : LogFmap → y.State → y.State × Bool
  emit_list fm s =
      if fm.fmap_ext_type == ext_simple
      then emit_simple_ext_list s (se fm) (fmap_nextents fm)
      else if fm.fmap_ext_type == ext_interleave
      then emit_striped_ext_list s fm
      else (s, true)

  -- `none` is the assertion that a field of the section was written.
  unfoldable pub after_fields : LogFmap → y.State × Bool → Option (y.State × Bool)
  after_fields fm (s, true) = some (emit_list fm s)
  after_fields fm (s, false) = none

  unfoldable pub emit_file_section : y.State → LogFileMeta → Option (y.State × Bool)
  emit_file_section s fm = after_fields fm.fm_fmap (emit_all y s (section_events fm))

  -- What the caller does after the section, whose result it ignores.
  unfoldable pub after_section : Option (y.State × Bool) → Option (y.State × Bool)
  after_section none = none
  after_section (some (s, section_ok)) = some (emit_all y s closing)

  unfoldable pub after_opening : LogFileMeta → y.State × Bool → Option (y.State × Bool)
  after_opening fm (s, true) = after_section (emit_file_section s fm)
  after_opening fm (s, false) = some (s, false)

  -- False is the result -1.
  unfoldable pub famfs_emit_file_yaml : LogFileMeta → Option (y.State × Bool)
  famfs_emit_file_yaml fm =
      if y.emitter_ready
      then after_opening fm (emit_all y y.start opening)
      else some (y.start, false)
