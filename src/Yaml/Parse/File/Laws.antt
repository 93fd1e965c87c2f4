-- ===== src/Yaml/Parse/File/Laws.antt =====
-- The reader of a file section on what the writer of the section writes.
use famfs.Prelude.{
  ℕ, zero, suc, ◌^◌, ◌≤◌, ◌<◌, ◌≡◌, refl, ap, true, List, [], ◌∷◌, ◌++◌, arith, u32, ◌==◌,
}
use famfs.Prelude.Lists.{length, length-append, take, list_eq}
use famfs.Prelude.Text.{codes}
use famfs.Meta.{SimpleExtent, LogFileMeta, ext_simple, ext_interleave}
use famfs.Meta.Fmap.{fmap_nextents}
use famfs.Yaml.{Event, seq_start, seq_end, map_start, map_end, scalar}
use famfs.Yaml.Numbers.{print_signed, print_hex, print_octal, strtoull}
use famfs.Yaml.Numbers.Laws.{strtoull-print_signed64, strtoull-print_signed32, strtoull-print_octal}
use famfs.Yaml.Emit.{extents_events, section_events}
use famfs.Yaml.Parse.{Parsed, parsed, Turn, again, finished, expect, expect_scalar}
use famfs.Yaml.Parse.{event_type}
use famfs.Yaml.Parse.Loop.{EndsIn, one_turn, last_turn}
use famfs.Yaml.Parse.Extents.Laws.{FitsWord, fill, simple_list_read}
use famfs.Yaml.Parse.Striped.Laws.{striped_words, striped_list_read}
use famfs.Yaml.Parse.File.{
  file_key, set_field, file_value, after_simple, after_striped, file_entry, file_turn, file_from,
  famfs_parse_file_yaml, with_fmap,
}

pub record FieldsFit (fm : LogFileMeta) : Type 0 where
  pub size_fits : fm.fm_size < 2 ^ 64
  pub flags_fit : fm.fm_flags < 2 ^ 32
  pub uid_fits : fm.fm_uid < 2 ^ 32
  pub gid_fits : fm.fm_gid < 2 ^ 32
  pub mode_fits : fm.fm_mode < 2 ^ 32
  pub path_fits : length fm.fm_relpath ≤ 79
  pub count_fits : fmap_nextents fm.fm_fmap < 2 ^ 32

take_all : (n : ℕ) (xs : List ℕ) → length xs ≤ n → take n xs ≡ xs
take_all zero [] h = refl
take_all zero (x ∷ xs) h = absurd (omega arith)
take_all (suc n) [] h = refl
take_all (suc n) (x ∷ xs) h = ap (λ ys. x ∷ ys) (take_all n xs (omega arith))

-- The fields of `fm` with the map of `was`, but for the count.
abbrev pub fields_of : LogFileMeta → LogFileMeta → LogFileMeta
fields_of was fm = record {
  fm_size = fm.fm_size;
  fm_flags = fm.fm_flags;
  fm_uid = fm.fm_uid;
  fm_gid = fm.fm_gid;
  fm_mode = fm.fm_mode;
  fm_relpath = fm.fm_relpath;
  fm_fmap = record was.fm_fmap { fmap_count = fm.fm_fmap.fmap_count };
}

module _ (max_extents max_strips : ℕ) where
  abbrev turn : LogFileMeta → List Event → Turn LogFileMeta
  turn = file_turn max_extents max_strips

  fields_read :
      (was fm : LogFileMeta) (rest : List Event) (p : Parsed LogFileMeta)
      → FieldsFit fm
      → EndsIn turn (fields_of was fm) rest p
      → EndsIn turn was (section_events fm ++ rest) p
  unfolding file_turn file_entry file_key file_value set_field expect_scalar list_eq
  fields_read was fm rest p fits ends =
      let m1 = record was { fm_relpath = fm.fm_relpath } in
      let m2 = record m1 { fm_size = fm.fm_size } in
      let m3 = record m2 { fm_flags = fm.fm_flags } in
      let m4 = record m3 { fm_mode = fm.fm_mode } in
      let m5 = record m4 { fm_uid = fm.fm_uid } in
      let m6 = record m5 { fm_gid = fm.fm_gid } in
      let e7 = scalar (codes "nextents") ∷ scalar (print_signed 32 fm.fm_fmap.fmap_count) ∷ rest in
      let e6 = scalar (codes "gid") ∷ scalar (print_signed 32 fm.fm_gid) ∷ e7 in
      let e5 = scalar (codes "uid") ∷ scalar (print_signed 32 fm.fm_uid) ∷ e6 in
      let e4 = scalar (codes "mode") ∷ scalar (print_octal fm.fm_mode) ∷ e5 in
      let e3 = scalar (codes "flags") ∷ scalar (print_signed 32 fm.fm_flags) ∷ e4 in
      let e2 = scalar (codes "size") ∷ scalar (print_signed 64 fm.fm_size) ∷ e3 in
      let e1 = scalar (codes "path") ∷ scalar fm.fm_relpath ∷ e2 in
      let octal = strtoull-print_octal fm.fm_mode (omega (arith, fits.mode_fits)) in
      let mode : u32 (strtoull (print_octal fm.fm_mode)) ≡ fm.fm_mode =
        rw octal (omega (arith, fits.mode_fits)) in
      one_turn turn was m1 e1 e2 p
        (ap (λ v. again (record was { fm_relpath = v }) e2)
          (take_all 79 fm.fm_relpath fits.path_fits))
        (omega arith)
        (one_turn turn m1 m2 e2 e3 p
          (ap (λ v. again (record m1 { fm_size = v }) e3)
            (strtoull-print_signed64 fm.fm_size fits.size_fits))
          (omega arith)
          (one_turn turn m2 m3 e3 e4 p
            (ap (λ v. again (record m2 { fm_flags = v }) e4)
              (strtoull-print_signed32 fm.fm_flags fits.flags_fit))
            (omega arith)
            (one_turn turn m3 m4 e4 e5 p (ap (λ v. again (record m3 { fm_mode = v }) e5) mode)
              (omega arith)
              (one_turn turn m4 m5 e5 e6 p
                (ap (λ v. again (record m4 { fm_uid = v }) e6)
                  (strtoull-print_signed32 fm.fm_uid fits.uid_fits))
                (omega arith)
                (one_turn turn m5 m6 e6 e7 p
                  (ap (λ v. again (record m5 { fm_gid = v }) e7)
                    (strtoull-print_signed32 fm.fm_gid fits.gid_fits))
                  (omega arith)
                  (one_turn turn m6 (fields_of was fm) e7 rest p
                    (ap (λ v. again (with_fmap m6 (record was.fm_fmap { fmap_count = v })) rest)
                      (strtoull-print_signed32 fm.fm_fmap.fmap_count fits.count_fits))
                    (omega arith) ends))))))

  section_end :
      (fm : LogFileMeta) (rest : List Event) → turn fm (map_end ∷ rest) ≡ finished (parsed fm rest)
  unfolding file_turn
  section_end fm rest = refl

  -- The map with the simple extents that were read
  abbrev pub with_simple : LogFileMeta → (ℕ → SimpleExtent) → ℕ → LogFileMeta
  with_simple fm f n =
      with_fmap fm
        (record fm.fm_fmap { fmap_ext_type = ext_simple; words = fill 0 f n 0 fm.fm_fmap.words })

  pub simple_read :
      (fm : LogFileMeta) (f : ℕ → SimpleExtent) (n : ℕ) (rest : List Event)
      → fmap_nextents fm.fm_fmap ≡ n
      → 1 ≤ n
      → n ≤ max_extents
      → ((k : ℕ) → k < n → FitsWord (f k))
      → EndsIn turn fm
          (scalar (codes "simple_ext_list") ∷ seq_start ∷ extents_events f n 0
            ++ (seq_end ∷ map_end ∷ map_end ∷ rest))
          (parsed (with_simple fm f n) rest)
  unfolding file_turn file_entry file_key after_simple list_eq
  simple_read fm f n rest count lo hi fits =
      let list = extents_events f n 0 ++ (seq_end ∷ map_end ∷ map_end ∷ rest) in
      let all = scalar (codes "simple_ext_list") ∷ seq_start ∷ list in
      let read = with_simple fm f n in
      let same : (n == fmap_nextents fm.fm_fmap) ≡ true = ground arith in
      one_turn turn fm read all (map_end ∷ rest) (parsed read rest)
        (rw (simple_list_read 0 max_extents f n fm.fm_fmap.words (map_end ∷ rest) lo hi fits, same)
          refl)
        (omega (arith, length-append (extents_events f n 0) (seq_end ∷ map_end ∷ map_end ∷ rest)))
        (last_turn turn read (map_end ∷ rest) (parsed read rest) (section_end read rest))

  -- The map with the one interleaved extent that was read
  abbrev pub with_striped : LogFileMeta → ℕ → ℕ → (ℕ → SimpleExtent) → LogFileMeta
  with_striped fm nstrips chunk f = with_fmap fm (record fm.fm_fmap {
    fmap_ext_type = ext_interleave;
    words = striped_words nstrips chunk f fm.fm_fmap.words;
  })

  pub striped_read :
      (fm : LogFileMeta) (nstrips chunk : ℕ) (f : ℕ → SimpleExtent) (rest : List Event)
      → 1 ≤ nstrips
      → nstrips ≤ max_strips
      → max_strips < 2 ^ 64
      → chunk < 2 ^ 64
      → ((k : ℕ) → k < nstrips → FitsWord (f k))
      → EndsIn turn fm
          (scalar (codes "striped_ext_list")
              ∷ seq_start
              ∷ map_start
              ∷ scalar (codes "nstrips")
              ∷ scalar (print_signed 64 nstrips)
              ∷ scalar (codes "chunk_size")
              ∷ scalar (print_hex chunk)
              ∷ scalar (codes "simple_ext_list")
              ∷ seq_start
              ∷ extents_events f nstrips 0
            ++ (seq_end ∷ map_end ∷ seq_end ∷ map_end ∷ map_end ∷ rest))
          (parsed (with_striped fm nstrips chunk f) rest)
  unfolding file_turn file_entry file_key after_striped list_eq
  striped_read fm nstrips chunk f rest lo hi small chunk_fits fits =
      let tail = seq_end ∷ map_end ∷ seq_end ∷ map_end ∷ map_end ∷ rest in
      let list = extents_events f nstrips 0 ++ tail in
      let all =
        scalar (codes "striped_ext_list")
        ∷ seq_start
        ∷ map_start
        ∷ scalar (codes "nstrips")
        ∷ scalar (print_signed 64 nstrips)
        ∷ scalar (codes "chunk_size")
        ∷ scalar (print_hex chunk)
        ∷ scalar (codes "simple_ext_list")
        ∷ seq_start
        ∷ list in
      let typed = record fm.fm_fmap { fmap_ext_type = ext_interleave } in
      let read = with_striped fm nstrips chunk f in
      one_turn turn fm read all (map_end ∷ rest) (parsed read rest)
        (rw
          (striped_list_read max_strips typed nstrips chunk f (map_end ∷ rest) lo hi small
            chunk_fits fits)
          refl)
        (omega (arith, length-append (extents_events f nstrips 0) tail))
        (last_turn turn read (map_end ∷ rest) (parsed read rest) (section_end read rest))

  pub file_section_read :
      (was fm : LogFileMeta) (rest : List Event) (p : Parsed LogFileMeta)
      → FieldsFit fm
      → EndsIn turn (fields_of was fm) rest p
      → famfs_parse_file_yaml max_extents max_strips was (map_start ∷ section_events fm ++ rest) ≡ p
  unfolding famfs_parse_file_yaml file_from expect event_type
  file_section_read was fm rest p fits ends =
      fields_read was fm rest p fits ends (suc (length (section_events fm ++ rest))) (omega arith)
