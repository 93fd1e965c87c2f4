-- ===== src/Replay/Entry.antt =====
-- One entry of the log in `__famfs_logplay` (src/famfs_lib.c): played without an error it is there
-- afterwards.
use famfs.Prelude.{
  ℕ, ◌+◌, ◌≤◌, ◌<◌, ◌≡◌, inl, inr, refl, true, false, ◌||◌, not, ◌==◌, Option, some, List, arith,
  Bool-cases, Option-cases,
}
use mathlib.Core.Option.{some-injective}
use mathlib.Core.Path.{subst}
use famfs.Meta.{Rc, LogFileMeta, LogMkdir, LogPayload, file, mkdir, add_daxdev, other}
use famfs.Host.{Posix, FileKind, directory, regular, special}
use famfs.Host.Laws.{IsThere, IsDirectory, Keeps, Keeps-refl, Keeps-trans, IsPlain}
use famfs.Files.Path.{join}
use famfs.Files.Create.{
  FdRc, fd, error, famfs_file_create_stub, famfs_v2_set_file_map, famfs_dir_create,
}
use famfs.Files.Create.Laws.{stub_cases, set_map-Keeps, dir_create_lem, StubOutcome}
use famfs.Files.Mkfile.{is_dir}
use famfs.Files.Mkfile.Effects.{no_none}
use famfs.Files.Mkdir.{is_ok}
use famfs.Replay.{
  Play, PlayArgs, is_client, file_problems, dir_problems, map_created, create_missing, play_file,
  existing_dir, made_dir, create_missing_dir, play_dir, play_entry,
}

-- The errors so far.
abbrev pub errs : {State : Type 0} → Play State → ℕ
errs p = p.ls.f_errs + p.ls.d_errs

fd_error : {d : ℕ} {rc : Rc} → fd d ≡ error rc → ⊥
fd_error e = cc

is_dir-directory : (k : FileKind) → is_dir k ≡ true → k ≡ directory
unfolding is_dir
is_dir-directory directory e = refl
is_dir-directory regular e = absurd (cc)
is_dir-directory special e = absurd (cc)

module _ (P : Posix) (a : PlayArgs) where
  -- What realpath leaves in its buffer is the path of the entry.
  abbrev pub Canonical : P.State → LogPayload → Type 0
  Canonical s (file fm) = P.realpath_buf s (join a.mpt fm.fm_relpath) ≡ join a.mpt fm.fm_relpath
  Canonical s (mkdir md) = P.realpath_buf s (join a.mpt md.md_relpath) ≡ join a.mpt md.md_relpath
  Canonical s (add_daxdev dd) = Unit {0}
  Canonical s (other t) = Unit {0}

  -- What the entry describes is there, and the entry has no fault.
  abbrev pub Played : P.State → LogPayload → Type 0
  Played s (file fm) = (file_problems a.mock_path fm ≡ 0) × IsThere P s (join a.mpt fm.fm_relpath)
  Played s (mkdir md) =
      (dir_problems a.mock_path md ≡ 0) × IsDirectory P s (join a.mpt md.md_relpath)
  Played s (add_daxdev dd) = Unit {0}
  Played s (other t) = Unit {0}

  pub Played-Keeps : (s s' : P.State) (e : LogPayload) → Keeps P s s' → Played s e → Played s' e
  Played-Keeps s s' (file fm) k (h, there) = (h, k.paths (join a.mpt fm.fm_relpath) there)
  Played-Keeps s s' (mkdir md) k (h, there) = (h, k.directories (join a.mpt md.md_relpath) there)
  Played-Keeps s s' (add_daxdev dd) k h = tt
  Played-Keeps s s' (other t) k h = tt

  -- From p to p', if no error was counted, nothing went away and `Q` holds.
  pub record Clean (Q : P.State → Type 0) (p p' : Play P.State) : Type 0 where
    pub grows : errs p ≤ errs p'
    pub clean : errs p' ≡ errs p → Keeps P p.fs p'.fs × Q p'.fs

  moved :
      {Q : P.State → Type 0} (p1 p p' : Play P.State)
      → Path (Option (Play P.State)) (some p1) (some p')
      → Clean Q p p1
      → Clean Q p p'
  moved {Q} p1 p p' e c = subst (λ t. Clean Q p t) (some-injective p1 p' e) c

  module _ (plain : IsPlain P) where
    map_created-Clean :
        (fm : LogFileMeta) (path : List ℕ) (p p' : Play P.State) (r : P.State × FdRc)
        → StubOutcome P plain p.fs path r
        → map_created P a fm path p.ls r ≡ some p'
        → Clean (λ s. IsThere P s path) p p'
    unfolding map_created
    map_created-Clean fm path p p' (s, error rc) o e =
        moved (record { fs = P.unlink s path; ls = record (p.ls) { f_errs = p.ls.f_errs + 1 } }) p
          p' e (record { grows = omega arith; clean = λ q. absurd (omega (arith, q)) })
    map_created-Clean fm path p p' (s, fd d) (inl (rc, q)) e = absurd (fd_error q)
    map_created-Clean fm path p p' (s, fd d) (inr (d', q, made)) e =
        elim (Option-cases (famfs_v2_set_file_map P s d fm.fm_size fm.fm_fmap)) [
          | inl stop ↦ absurd (no_none (rw stop at e))
          | inr ((s', rc), run) ↦
              let closed =
                Keeps-trans P s s' (P.close s' d)
                  (set_map-Keeps P plain s s' d fm.fm_size fm.fm_fmap rc run)
                  (plain.close_keeps s' d) in
              moved
                (record {
                  fs = P.close s' d;
                  ls = record (p.ls) { f_created = p.ls.f_created + 1 };
                })
                p p' (rw run at e)
                (record {
                  grows = omega arith;
                  clean = λ z. (
                    Keeps-trans P p.fs s (P.close s' d) made.keeps closed,
                    closed.paths path made.made,
                  );
                })
        ]

    create_missing-Clean :
        (fm : LogFileMeta) (path : List ℕ) (p p' : Play P.State)
        → create_missing P a fm path p ≡ some p'
        → Clean (λ s. IsThere P s path) p p'
    unfolding create_missing
    create_missing-Clean fm path p p' e = elim (Option-cases (P.stat p.fs path)) [
      | inr (st, found) ↦
          moved (record p { ls = record (p.ls) { f_existed = p.ls.f_existed + 1 } }) p p'
            (rw (create_missing, found) at e)
            (record {
              grows = omega arith;
              clean = λ z. (Keeps-refl P p.fs, record { found = st; there = found });
            })
      | inl absent ↦
          map_created-Clean fm path p p'
            (famfs_file_create_stub P p.fs path fm.fm_mode fm.fm_uid fm.fm_gid (is_client a.role))
            (stub_cases P plain p.fs path fm.fm_mode fm.fm_uid fm.fm_gid (is_client a.role))
            (rw (create_missing, absent) at e)
    ]

    create_missing_dir-Clean :
        (md : LogMkdir) (p : Play P.State)
        → let path = join a.mpt md.md_relpath in
          Clean (λ s. IsDirectory P s path) p (create_missing_dir P a md path p)
    unfolding create_missing_dir existing_dir made_dir
    create_missing_dir-Clean md p =
        let path = join a.mpt md.md_relpath in
        elim (Option-cases (P.stat p.fs path)) [
          | inr (st, found) ↦ elim (Bool-cases (is_dir st.st_kind)) [
            | inl dir ↦
                rw (create_missing_dir, found, dir)
                  (record {
                    grows = omega arith;
                    clean = λ z. (
                      Keeps-refl P p.fs,
                      record { found = st; there = found; kind = is_dir-directory st.st_kind dir },
                    );
                  })
            | inr other_ ↦
                rw (create_missing_dir, found, other_)
                  (record { grows = omega arith; clean = λ z. absurd (omega (arith, z)) })
          ]
          | inl absent ↦
              let r = famfs_dir_create P p.fs a.mpt md.md_relpath md.md_mode md.md_uid md.md_gid in
              elim (Bool-cases (is_ok r.1)) [
                | inl good ↦
                    rw (create_missing_dir, absent, good)
                      (record {
                        grows = omega arith;
                        clean = λ z.
                            dir_create_lem P plain p.fs a.mpt md.md_relpath md.md_mode md.md_uid
                              md.md_gid good;
                      })
                | inr bad ↦
                    rw (create_missing_dir, absent, bad)
                      (record { grows = omega arith; clean = λ z. absurd (omega (arith, z)) })
              ]
        ]

    play_file-Clean :
        (fm : LogFileMeta) (p p' : Play P.State)
        → a.dry_run ≡ false
        → Canonical p.fs (file fm)
        → play_file P a fm p ≡ some p'
        → Clean (λ s. Played s (file fm)) p p'
    unfolding play_file
    play_file-Clean fm p p' wet c e =
        let n = file_problems a.mock_path fm in
        let counted : Play P.State = record p {
          ls = record (p.ls) { f_logged = p.ls.f_logged + 1; f_errs = p.ls.f_errs + n };
        } in
        elim (Bool-cases (n == 0)) [
          | inr faulty ↦
              let some_problem : 0 < n = ground arith in
              moved counted p p' (rw faulty at e) (record {
                grows = omega arith;
                clean = λ z. absurd (omega (arith, z, some_problem));
              })
          | inl fine ↦
              let no_problem : n ≡ 0 = ground arith in
              let go : (not (n == 0) || a.dry_run) ≡ false = ground (arith, wet) in
              let r =
                create_missing-Clean fm (join a.mpt fm.fm_relpath) counted p' (rw (go, c) at e) in
              record {
                grows = omega (arith, r.grows);
                clean = λ z.
                    let (keeps, there) = r.clean (omega (arith, z, no_problem)) in
                    (keeps, (no_problem, there));
              }
        ]

    play_dir-Clean :
        (md : LogMkdir) (p : Play P.State)
        → a.dry_run ≡ false
        → Canonical p.fs (mkdir md)
        → Clean (λ s. Played s (mkdir md)) p (play_dir P a md p)
    unfolding play_dir
    play_dir-Clean md p wet c =
        let n = dir_problems a.mock_path md in
        let counted : Play P.State = record p {
          ls = record (p.ls) { d_logged = p.ls.d_logged + 1; d_errs = p.ls.d_errs + n };
        } in
        elim (Bool-cases (n == 0)) [
          | inr faulty ↦
              let some_problem : 0 < n = ground arith in
              rw faulty (record {
                grows = omega arith;
                clean = λ z. absurd (omega (arith, z, some_problem));
              })
          | inl fine ↦
              let no_problem : n ≡ 0 = ground arith in
              let go : (not (n == 0) || a.dry_run) ≡ false = ground (arith, wet) in
              let r = create_missing_dir-Clean md counted in
              rw (go, c)
                (record {
                  grows = omega (arith, r.grows);
                  clean = λ z.
                      let (keeps, there) = r.clean (omega (arith, z, no_problem)) in
                      (keeps, (no_problem, there));
                })
        ]

    pub play_entry-Clean :
        (e : LogPayload) (p p' : Play P.State)
        → a.dry_run ≡ false
        → Canonical p.fs e
        → play_entry P a e p ≡ some p'
        → Clean (λ s. Played s e) p p'
    unfolding play_entry
    play_entry-Clean (file fm) p p' wet c run = play_file-Clean fm p p' wet c run
    play_entry-Clean (mkdir md) p p' wet c run =
        moved (play_dir P a md p) p p' run (play_dir-Clean md p wet c)
    play_entry-Clean (add_daxdev dd) p p' wet c run =
        moved p p p' run (record { grows = omega arith; clean = λ z. (Keeps-refl P p.fs, tt) })
    play_entry-Clean (other t) p p' wet c run =
        moved p p p' run (record { grows = omega arith; clean = λ z. (Keeps-refl P p.fs, tt) })
