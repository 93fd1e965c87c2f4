-- ===== src/Yaml/RoundTrip/Whole.antt =====
-- The round trip.
use mathlib.Core.Path.{subst}
use famfs.Prelude.{
  ◌^◌, ◌<◌, ◌≡◌, refl, sym, ap, ◌∙◌, true, some, List, ◌∷◌, ◌++◌, arith, if◌then◌else◌,
}
use famfs.Prelude.Lists.{list_eq}
use famfs.Meta.{Rc, LogFmap, LogFileMeta, max_simple_extents}
use famfs.Meta.Fmap.{fmap_nextents, se, ie_nstrips, ie_chunk_size, ie_strips}
use famfs.Meta.View.{file_view, map_view}
use famfs.Yaml.{Event, map_start, Libyaml}
use famfs.Yaml.Tree.{document, IsFaithful}
use famfs.Yaml.Emit.{section_events, closing, famfs_emit_file_yaml}
use famfs.Yaml.Emit.Document.{file_node}
use famfs.Yaml.Emit.Events.{list_events, file_events, document-file_node}
use famfs.Yaml.Emit.Laws.{file_taken}
use famfs.Yaml.Parse.{parsed, expect, expect_scalar, event_type}
use famfs.Yaml.Parse.Loop.{EndsIn}
use famfs.Yaml.Parse.File.Laws.{FieldsFit, fields_of, file_section_read, simple_read, striped_read}
use famfs.Yaml.Parse.File.{
  famfs_parse_file_yaml, after_file, end_document, first_stanza, file_turn, whole_document,
  famfs_parse_shadow_yaml,
}
use famfs.Yaml.RoundTrip.{IsMap, simple, striped, IsStorable, zeroed}
use famfs.Yaml.RoundTrip.Tails.{tail_events, simple_tail, striped_tail}
use famfs.Yaml.RoundTrip.Exact.{Exact, simple-Exact, striped-Exact}
use famfs.Yaml.RoundTrip.Printable.{file_printable}
use famfs.Yaml.RoundTrip.Views.{simple_result, striped_result, simple_view, striped_view}

fields_fit : (fm : LogFileMeta) → IsStorable fm → FieldsFit fm
fields_fit fm h = record {
  size_fits = h.size_fits;
  flags_fit = h.flags_fit;
  uid_fits = h.uid_fits;
  gid_fits = h.gid_fits;
  mode_fits = h.mode_fits;
  path_fits = h.path_fits;
  count_fits = count_small fm.fm_fmap h.has_map;
}
  where
    count_small : (m : LogFmap) → IsMap m → fmap_nextents m < 2 ^ 32
    count_small m (simple type lo hi fits) = omega arith
    count_small m (striped type one lo hi chunk fits) = omega arith

-- After the fields of `fm`, these events make the reader return `fm` with the map `m`.
abbrev MapEndsIn : LogFileMeta → LogFmap → List Event → Type 0
MapEndsIn fm m es =
    EndsIn (file_turn 16 16) (fields_of zeroed fm) es
      (parsed (record fm { fm_fmap = m }) tail_events)

-- The map that is read back from the events of a map
map_read :
    (fm : LogFileMeta)
    → IsMap fm.fm_fmap
    → (m : LogFmap) × (map_view m ≡ map_view fm.fm_fmap)
      × Exact fm.fm_fmap m
      × MapEndsIn fm m (list_events fm.fm_fmap ++ closing)
map_read fm (simple type lo hi fits) = (
  simple_result fm.fm_fmap (λ a. 0),
  simple_view fm.fm_fmap (λ a. 0) type,
  record { same_type = sym type; same_count = refl; same_words = simple-Exact fm.fm_fmap type },
  subst (MapEndsIn fm (simple_result fm.fm_fmap (λ a. 0))) (sym (simple_tail fm.fm_fmap type hi)) (
      simple_read 16 16 (fields_of zeroed fm) (se fm.fm_fmap) (fmap_nextents fm.fm_fmap) tail_events
        refl lo hi fits),
)
map_read fm (striped type one lo hi chunk fits) = (
  striped_result fm.fm_fmap (λ a. 0),
  striped_view fm.fm_fmap (λ a. 0) type one,
  record { same_type = sym type; same_count = refl; same_words = striped-Exact fm.fm_fmap type },
  subst (MapEndsIn fm (striped_result fm.fm_fmap (λ a. 0)))
      (sym (striped_tail fm.fm_fmap type one hi))
      (striped_read 16 16 (fields_of zeroed fm) (ie_nstrips fm.fm_fmap 0)
        (ie_chunk_size fm.fm_fmap 0) (ie_strips fm.fm_fmap 0) tail_events lo hi (omega arith) chunk
        fits),
)

document_read :
    (fm read : LogFileMeta)
    → famfs_parse_file_yaml 16 16 zeroed
        (map_start ∷ section_events fm ++ (list_events fm.fm_fmap ++ closing))
      ≡ parsed read tail_events
    → whole_document 16 16 zeroed (file_events fm) ≡ (Rc.ok, read)
unfolding whole_document first_stanza after_file end_document expect expect_scalar event_type
    file_events list_eq
document_read fm read parse = ap after_file parse

module _ (y : Libyaml) where
  text_read :
      (text : y.Text) (fm read : LogFileMeta)
      → y.parser_ready ≡ true
      → y.read_events text ≡ document (file_node fm)
      → whole_document 16 16 zeroed (file_events fm) ≡ (Rc.ok, read)
      → famfs_parse_shadow_yaml y text zeroed 16 16 ≡ (Rc.ok, read)
  unfolding famfs_parse_shadow_yaml
  text_read text fm read ready events parse =
      ap (λ b. if b then whole_document 16 16 zeroed (y.read_events text) else (Rc.failed, zeroed))
        ready
      ∙ ap (whole_document 16 16 zeroed) (events ∙ document-file_node fm)
      ∙ parse

  -- The state after the writing, and the map that is read back.
  pub written_read :
      IsFaithful y
      → (fm : LogFileMeta) → IsStorable fm
      → (s : y.State) × (m : LogFmap) × (famfs_emit_file_yaml y fm ≡ some (s, true))
        × (famfs_parse_shadow_yaml y (y.written s) zeroed max_simple_extents max_simple_extents
            ≡ (Rc.ok, record fm { fm_fmap = m }))
        × (map_view m ≡ map_view fm.fm_fmap)
        × Exact fm.fm_fmap m
  written_read works fm storable =
      let (s, taken, events) =
        works.reads_back (file_node fm) (file_printable fm storable.path_printable) in
      let (m, same, exact, ends) = map_read fm storable.has_map in
      let read = record fm { fm_fmap = m } in
      let section =
        file_section_read 16 16 zeroed fm (list_events fm.fm_fmap ++ closing)
          (parsed read tail_events) (fields_fit fm storable) ends in
      (
        s,
        m,
        file_taken y fm s works.emitter_works taken,
        text_read (y.written s) fm read works.parser_works events (document_read fm read section),
        same,
        exact,
      )

  -- On a libyaml that works: the metadata of a file with extents, with fields of their C types and
  -- a printable path of at most 79 bytes, are written to a shadow file without an error, and what
  -- is read back from that file into a zeroed structure, with 0 returned, has the same size, flags,
  -- owner, mode and path, and a map with the same extents in the same order.
  pub shadow_round_trip :
      IsFaithful y
      → (fm : LogFileMeta) → IsStorable fm
      → (s : y.State) × (read : LogFileMeta) × (famfs_emit_file_yaml y fm ≡ some (s, true))
        × (famfs_parse_shadow_yaml y (y.written s) zeroed max_simple_extents max_simple_extents
            ≡ (Rc.ok, read))
        × (file_view read ≡ file_view fm)
  unfolding file_view
  shadow_round_trip works fm storable =
      let (s, m, written, parse, same, exact) = written_read works fm storable in
      (
        s,
        record fm { fm_fmap = m },
        written,
        parse,
        ap (λ v. record (file_view fm) { file_map = v }) same,
      )
