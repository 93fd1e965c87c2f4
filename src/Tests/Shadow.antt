-- ===== src/Tests/Shadow.antt =====
-- Shadow files: a libyaml that keeps the events, and the theorems on the yaml code applied.
use mathlib.Core.List.{append_assoc, append-nil}
use famfs.Prelude.{ℕ, ◌<◌, ◌≡◌, refl, sym, ap, ◌∙◌, true, some, List, [], ◌∷◌, ◌++◌, arith}
use famfs.Prelude.Text.{codes}
use famfs.Meta.{Rc, LogFileMeta, ext_simple, max_simple_extents}
use famfs.Meta.Fmap.{se}
use famfs.Meta.View.{file_view}
use famfs.Alloc.Param.{InterleaveParam}
use famfs.Yaml.{Event, seq_start, map_start, map_end, scalar, Libyaml, emit_all}
use famfs.Yaml.Tree.{IsFaithful, document, is_printable}
use famfs.Yaml.Emit.{extents_events, famfs_emit_file_yaml}
use famfs.Yaml.Parse.{error}
use famfs.Yaml.Parse.Extents.{famfs_parse_file_simple_ext_list}
use famfs.Yaml.Parse.Extents.Laws.{FitsWord, at_extent, fill}
use famfs.Yaml.Parse.Extents.Limit.{too_many_refused}
use famfs.Yaml.Parse.File.{famfs_parse_shadow_yaml}
use famfs.Yaml.Numbers.{digit_value}
use famfs.Yaml.Parse.Alloc.{unit, famfs_parse_alloc_yaml}
use famfs.Yaml.Parse.Alloc.Laws.{config, alloc_config_read}
use famfs.Yaml.RoundTrip.{IsMap, IsStorable, zeroed}
use famfs.Yaml.RoundTrip
use famfs.Yaml.RoundTrip.Whole.{shadow_round_trip}
use famfs.Yaml.Emit.Document.{file_node}
use famfs.Yaml.Emit.Laws.{file_taken}
use famfs.Host.{regular}
use famfs.Meta.{no_stats}
use famfs.Prelude.{Option, none, false, ltb, if◌then◌else◌}
use famfs.Files.Shadow.{ShadowHost, famfs_shadow_file_create}
use famfs.Files.Shadow.Laws.{shadow_tested}
use famfs.Message.{
  FuseField, fmap_version, file_type, ext_type, file_size, nextents, se_devindex, se_offset, se_len,
  ie_nstrips, ie_chunk_size, ie_nbytes, FuseLayout, famfs_log_file_meta_to_msg,
}
use famfs.Message.Laws.{message_size, message_of, message_lem}
use famfs.Yaml.Stat.{FileStat, famfs_shadow_to_stat}
use famfs.Yaml.Stat.Laws.{shadow_stat}

abbrev echo : Libyaml
echo = record {
  State = List Event;
  Text = List Event;
  emitter_ready = true;
  start = [];
  emit = λ s e. (s ++ (e ∷ []), true);
  written = λ s. s;
  parser_ready = true;
  read_events = λ text. text;
}

echo_all : (es s : List Event) → emit_all echo s es ≡ (s ++ es, true)
unfolding emit_all
echo_all [] s = ap (λ t. (t, true)) (sym (append-nil s))
echo_all (e ∷ es) s = echo_all es (s ++ (e ∷ [])) ∙ ap (λ t. (t, true)) (append_assoc s (e ∷ []) es)

echo-IsFaithful : IsFaithful echo
echo-IsFaithful = record {
  emitter_works = refl;
  parser_works = refl;
  reads_back = λ n text. (document n, echo_all (document n) [], refl);
}

-- Two extents, in words that count up
abbrev two_extents : LogFileMeta
two_extents = record {
  fm_size = 0x300000;
  fm_flags = 2;
  fm_uid = 1000;
  fm_gid = 4294967295;
  fm_mode = 0o644;
  fm_relpath = codes "dir/file";
  fm_fmap = record { fmap_ext_type = ext_simple; fmap_count = 2; words = λ a. a };
}

counted-FitsWord : (k : ℕ) → k < 3 → FitsWord (se two_extents.fm_fmap k)
counted-FitsWord k h = record {
  devindex_fits = omega arith;
  offset_fits = omega arith;
  len_fits = omega arith;
}

two_extents-IsStorable : IsStorable two_extents
unfolding is_printable
two_extents-IsStorable = record {
  size_fits = omega arith;
  flags_fit = omega arith;
  uid_fits = omega arith;
  gid_fits = omega arith;
  mode_fits = omega arith;
  path_fits = omega arith;
  path_printable = refl;
  has_map =
      RoundTrip.simple refl (omega arith) (omega arith) (λ k h. counted-FitsWord k (omega arith));
}

shadow_round_trip_example :
    (s : List Event) × (read : LogFileMeta) × (famfs_emit_file_yaml echo two_extents
      ≡ some (s, true))
    × (famfs_parse_shadow_yaml echo s zeroed max_simple_extents max_simple_extents ≡ (Rc.ok, read))
    × (file_view read ≡ file_view two_extents)
shadow_round_trip_example =
    shadow_round_trip echo echo-IsFaithful two_extents two_extents-IsStorable

abbrev own_stat : FileStat
own_stat = record {
  st_dev = 1;
  st_rdev = 0;
  st_blksize = 4096;
  st_blocks = 8;
  st_atime = 5;
  st_mtime = 6;
  st_ctime = 7;
  st_ino = 12;
  st_mode = 0o100600;
  st_uid = 0;
  st_gid = 0;
  st_size = 300;
}

shadow_stat_example :
    (s : List Event) × (read : LogFileMeta) × (famfs_emit_file_yaml echo two_extents
      ≡ some (s, true))
    × (famfs_shadow_to_stat echo (some s) own_stat (own_stat, zeroed) ≡ (
      Rc.ok,
      (
        record own_stat {
          st_mode = 0o100644;
          st_uid = 1000;
          st_gid = 4294967295;
          st_size = 0x300000;
        },
        read,
      ),
    ))
    × (file_view read ≡ file_view two_extents)
shadow_stat_example =
    shadow_stat echo echo-IsFaithful two_extents two_extents-IsStorable own_stat (own_stat, zeroed)

too_many_refused_example :
    famfs_parse_file_simple_ext_list 0 2
      (λ a. 0)
      (seq_start ∷ extents_events (se two_extents.fm_fmap) 3 0 ++ [])
    ≡ error Rc.eoverflow (at_extent (fill 0 (se two_extents.fm_fmap) 2 0 (λ a. 0)) 2)
too_many_refused_example =
    too_many_refused 0 1 (se two_extents.fm_fmap) 3 (λ a. 0) [] (omega arith) counted-FitsWord

abbrev an_extent : List Event
an_extent = map_start ∷ scalar (codes "offset") ∷ scalar (codes "0x10") ∷ map_end ∷ []

abbrev no_param : InterleaveParam
no_param = record { nbuckets = 0; nstrips = 0; chunk_size = 0 }

alloc_config_read_example :
    famfs_parse_alloc_yaml echo (document (config 6 5 2 b'M')) no_param
    ≡ (Rc.ok, record { nbuckets = 6; nstrips = 5; chunk_size = 0x200000 })
unfolding unit digit_value
alloc_config_read_example =
    alloc_config_read echo (document (config 6 5 2 b'M')) no_param 6 5 2 b'M' refl refl
      (omega arith) (omega arith) (omega arith) (omega arith)

-- A disk with one shadow file, or none
abbrev one_file : ShadowHost echo
one_file = record {
  Disk = Option (List Event);
  stat = λ d path. elim d [ none ↦ none | some text ↦ some regular ];
  open_old = λ d path. (d, some 3);
  open_new = λ d path. (some [], some 3);
  fdopen = λ d fd. true;
  put = λ d fd s. some s;
  reread = λ d fd. elim d [ none ↦ [] | some text ↦ text ];
  close = λ d fd. d;
}

-- The same extents, with zeros behind them
abbrev zero_beyond : LogFileMeta
zero_beyond = record two_extents {
  fm_fmap = record {
    fmap_ext_type = ext_simple;
    fmap_count = 2;
    words = λ a. if ltb a 6 then a else 0;
  };
}

zero_beyond-IsStorable : IsStorable zero_beyond
unfolding is_printable
zero_beyond-IsStorable = record {
  size_fits = omega arith;
  flags_fit = omega arith;
  uid_fits = omega arith;
  gid_fits = omega arith;
  mode_fits = omega arith;
  path_fits = omega arith;
  path_printable = refl;
  has_map = RoundTrip.simple refl (omega arith) (omega arith) (λ k h. record {
    devindex_fits = ground arith;
    offset_fits = ground arith;
    len_fits = ground arith;
  });
}

abbrev zero_beyond_text : List Event
zero_beyond_text = document (file_node zero_beyond)

zero_beyond_written : famfs_emit_file_yaml echo zero_beyond ≡ some (zero_beyond_text, true)
zero_beyond_written =
    file_taken echo zero_beyond zero_beyond_text refl (echo_all zero_beyond_text [])

shadow_tested_example :
    famfs_shadow_file_create echo one_file
      (codes "/s/dir/file")
      zero_beyond
      no_stats
      false
      true
      (some zero_beyond_text)
    ≡ some (record {
      disk = some zero_beyond_text;
      ls = record no_stats { f_existed = 1; yaml_checked = 1 };
      rc = Rc.ok;
    })
shadow_tested_example =
    shadow_tested echo echo-IsFaithful one_file zero_beyond zero_beyond-IsStorable
      (codes "/s/dir/file") no_stats (some zero_beyond_text) (some zero_beyond_text) 3
      zero_beyond_text zero_beyond_written refl refl refl refl (λ a lo hi. ground arith)

-- Structures of 24 bytes each with fields of 32 bits, and of 64 for sizes, in a message of 100
abbrev wide : FuseField → ℕ
wide fmap_version = 16
wide file_type = 8
wide ext_type = 8
wide file_size = 64
wide nextents = 32
wide se_devindex = 32
wide se_offset = 64
wide se_len = 64
wide ie_nstrips = 32
wide ie_chunk_size = 32
wide ie_nbytes = 64

abbrev layout : FuseLayout
layout = record { header_size = 24; ext_size = 24; iext_size = 24; width = wide; version = 1 }

message_lem_example : famfs_log_file_meta_to_msg layout 100 0 two_extents ≡ (
    if ltb 100 (message_size layout two_extents.fm_fmap)
    then none
    else some (message_size layout two_extents.fm_fmap, message_of layout 0 two_extents))
message_lem_example =
    message_lem layout 100 0 two_extents
      (RoundTrip.simple refl (omega arith) (omega arith) (λ k h. counted-FitsWord k (omega arith)))
      refl (omega arith) (omega arith) (omega arith)
