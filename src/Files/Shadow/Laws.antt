-- ===== src/Files/Shadow/Laws.antt =====
-- A shadow file that was written passes the test.
use mathlib.Core.Option.{some-injective}
use famfs.Prelude.{ℕ, zero, suc, ◌+◌, ◌<◌, ◌≡◌, refl, sym, ap, ◌∙◌, true, false, some, List, arith}
use famfs.Prelude.Lists.{list_eq_iff}
use famfs.Meta.{Rc, LogFileMeta, LogFmap, LogStats}
use famfs.Host.{regular}
use famfs.Yaml.{Libyaml}
use famfs.Yaml.Tree.{IsFaithful}
use famfs.Yaml.Emit.{famfs_emit_file_yaml}
use famfs.Yaml.RoundTrip.{IsStorable}
use famfs.Yaml.RoundTrip.Exact.{IsZeroBeyond, Exact}
use famfs.Yaml.RoundTrip.Whole.{written_read}
use famfs.Files.Shadow.{
  ShadowHost, same_words, same_meta, compare_readback, famfs_test_shadow_yaml, close_both, tested,
  finish_shadow, test_old, existing_shadow, famfs_shadow_file_create,
}

same_words-all :
    (left i : ℕ) (w v : ℕ → ℕ) → ((a : ℕ) → a < i + left → v a ≡ w a) → same_words left i w v ≡ true
unfolding same_words
same_words-all zero i w v h = refl
same_words-all (suc left) i w v h =
    ground (arith, h i (omega arith), same_words-all left (i + 1) w v (λ a k. h a (omega arith)))

same_meta-Exact :
    (fm : LogFileMeta) (m : LogFmap)
    → Exact fm.fm_fmap m
    → IsZeroBeyond fm.fm_fmap
    → same_meta fm (record fm { fm_fmap = m }) ≡ true
unfolding same_meta
same_meta-Exact fm m exact zeros =
    let words = same_words-all 50 0 fm.fm_fmap.words m.words (exact.same_words zeros) in
    ground (
      arith,
      words,
      exact.same_type,
      exact.same_count,
      (list_eq_iff fm.fm_relpath fm.fm_relpath).1 refl,
    )

module _ (y : Libyaml) (works : IsFaithful y) (H : ShadowHost y) (fm : LogFileMeta)
    (storable : IsStorable fm) where
  open H use {Disk, stat, open_old, fdopen, reread}

  -- In test mode, where the shadow file that the same metadata were written to exists and can be
  -- opened, and the words of the map beyond its extents are zero: the file passes, 0 is returned,
  -- and one file more counts as existing and as checked; nothing is written.
  pub shadow_tested :
      (path : List ℕ) (ls : LogStats) (d d' : Disk) (fd : ℕ) (s : y.State)
      → famfs_emit_file_yaml y fm ≡ some (s, true)
      → stat d path ≡ some regular
      → open_old d path ≡ (d', some fd)
      → fdopen d' fd ≡ true
      → reread d' fd ≡ y.written s
      → IsZeroBeyond fm.fm_fmap
      → famfs_shadow_file_create y H path fm ls false true d
        ≡ some (record {
          disk = close_both y H d' fd;
          ls = record ls { f_existed = ls.f_existed + 1; yaml_checked = ls.yaml_checked + 1 };
          rc = Rc.ok;
        })
  unfolding famfs_shadow_file_create existing_shadow test_old finish_shadow famfs_test_shadow_yaml
      compare_readback tested
  shadow_tested path ls d d' fd s emitted exists opened stream text zeros =
      let (s', m, written, parse, same, exact) = written_read y works fm storable in
      let same_state : s' ≡ s = ap (λ r. r.0) (some-injective _ _ (sym written ∙ emitted)) in
      let content : reread d' fd ≡ y.written s' = text ∙ ap y.written (sym same_state) in
      rw (exists, opened, stream, content, parse, same_meta-Exact fm m exact zeros) refl
