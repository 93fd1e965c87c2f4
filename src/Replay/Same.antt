-- ===== src/Replay/Same.antt =====
-- An entry that is there already, in `__famfs_logplay` (src/famfs_lib.c): playing it changes nothing.
use famfs.Prelude.{◌+◌, ◌≡◌, refl, false, ◌||◌, not, ◌==◌, some, arith}
use famfs.Meta.{LogPayload, file, mkdir, add_daxdev, other}
use famfs.Host.{Posix}
use famfs.Files.Mkfile.{is_dir}
use famfs.Replay.{
  Play, PlayArgs, file_problems, dir_problems, create_missing, play_file, existing_dir,
  create_missing_dir, play_dir, play_entry,
}
use famfs.Replay.Entry.{Canonical, Played}

module _ (P : Posix) (a : PlayArgs) where
  -- The same files, and nothing created.
  pub record Same (p p' : Play P.State) : Type 0 where
    pub fs : p'.fs ≡ p.fs
    pub f_created : p'.ls.f_created ≡ p.ls.f_created
    pub d_created : p'.ls.d_created ≡ p.ls.d_created
    pub f_errs : p'.ls.f_errs ≡ p.ls.f_errs
    pub d_errs : p'.ls.d_errs ≡ p.ls.d_errs
    pub yaml_errs : p'.ls.yaml_errs ≡ p.ls.yaml_errs

  pub Same-refl : (p : Play P.State) → Same p p
  Same-refl p = record {
    fs = refl;
    f_created = refl;
    d_created = refl;
    f_errs = refl;
    d_errs = refl;
    yaml_errs = refl;
  }

  pub play_entry-Same :
      (e : LogPayload) (p : Play P.State)
      → a.dry_run ≡ false
      → Canonical P a p.fs e
      → Played P a p.fs e
      → (p' : Play P.State) × (play_entry P a e p ≡ some p') × Same p p'
  unfolding play_entry play_file play_dir create_missing create_missing_dir existing_dir is_dir
  play_entry-Same (file fm) p wet c (fine, there) =
      let go : (not (file_problems a.mock_path fm == 0) || a.dry_run) ≡ false =
        ground (arith, wet) in
      (
        record p {
          ls = record (p.ls) {
            f_logged = p.ls.f_logged + 1;
            f_errs = p.ls.f_errs + file_problems a.mock_path fm;
            f_existed = p.ls.f_existed + 1;
          };
        },
        rw (go, c, create_missing, there.there) refl,
        record {
          fs = refl;
          f_created = refl;
          d_created = refl;
          f_errs = omega (arith, fine);
          d_errs = refl;
          yaml_errs = refl;
        },
      )
  play_entry-Same (mkdir md) p wet c (fine, there) =
      let go : (not (dir_problems a.mock_path md == 0) || a.dry_run) ≡ false =
        ground (arith, wet) in
      (
        record p {
          ls = record (p.ls) {
            d_logged = p.ls.d_logged + 1;
            d_errs = p.ls.d_errs + dir_problems a.mock_path md;
            d_existed = p.ls.d_existed + 1;
          };
        },
        rw (go, c, create_missing_dir, there.there, there.kind) refl,
        record {
          fs = refl;
          f_created = refl;
          d_created = refl;
          f_errs = refl;
          d_errs = omega (arith, fine);
          yaml_errs = refl;
        },
      )
  play_entry-Same (add_daxdev dd) p wet c h = (p, refl, Same-refl p)
  play_entry-Same (other t) p wet c h = (p, refl, Same-refl p)
