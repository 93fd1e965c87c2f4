-- ===== src/Yaml/Stat/Laws.antt =====
-- What the fuse daemon sees of a file whose shadow file was written by `famfs_emit_file_yaml`.
use famfs.Prelude.{◌≡◌, ap, ◌∙◌, true, some, bit_or}
use famfs.Meta.{Rc, LogFileMeta}
use famfs.Meta.View.{file_view}
use famfs.Yaml.{Libyaml}
use famfs.Yaml.Tree.{IsFaithful}
use famfs.Yaml.Emit.{famfs_emit_file_yaml}
use famfs.Yaml.RoundTrip.{IsStorable}
use famfs.Yaml.RoundTrip.Whole.{shadow_round_trip}
use famfs.Yaml.Stat.{FileStat, regular_bit, stat_of, after_parse, famfs_shadow_to_stat}

stat_of-view :
    (shadow : FileStat) (a b : LogFileMeta)
    → file_view a ≡ file_view b
    → stat_of shadow a ≡ stat_of shadow b
unfolding stat_of file_view
stat_of-view shadow a b e =
    ap
      (λ v. record shadow {
        st_mode = bit_or v.file_mode regular_bit;
        st_uid = v.file_uid;
        st_gid = v.file_gid;
        st_size = v.file_size;
      })
      e

-- On a libyaml that works, and for a file as in the round trip of its metadata: from the shadow
-- file that was written, 0 is returned with the mode of the file and the mark of a regular file,
-- its owner and its size, with the other fields of the shadow file's own stat, and with metadata
-- that say the same as the file's.
pub shadow_stat :
    (y : Libyaml)
    → IsFaithful y
    → (fm : LogFileMeta) → IsStorable fm
    → (shadow : FileStat) (out : FileStat × LogFileMeta)
    → (s : y.State) × (read : LogFileMeta) × (famfs_emit_file_yaml y fm ≡ some (s, true))
      × (famfs_shadow_to_stat y (some (y.written s)) shadow out ≡ (
        Rc.ok,
        (
          record shadow {
            st_mode = bit_or fm.fm_mode regular_bit;
            st_uid = fm.fm_uid;
            st_gid = fm.fm_gid;
            st_size = fm.fm_size;
          },
          read,
        ),
      ))
      × (file_view read ≡ file_view fm)
unfolding famfs_shadow_to_stat after_parse stat_of
shadow_stat y works fm storable shadow out =
    let (s, read, written, parse, same) = shadow_round_trip y works fm storable in
    (
      s,
      read,
      written,
      ap (after_parse shadow out) parse
          ∙ ap (λ st. (Rc.ok, (st, read))) (stat_of-view shadow read fm same),
      same,
    )
