-- ===== src/Files/Mkdir/Effects.antt =====
-- What `__famfs_mkdir` of src/famfs_lib.c does to the log: nothing, or one entry that has no extents.
use mathlib.Core.Option.{some-injective}
use mathlib.Core.Path.{subst}
use famfs.Prelude.{ℕ, ◌≡◌, inl, inr, refl, Option, none, some, List, [], Bool-cases, Option-cases}
use famfs.Prelude.Lists.{take, list_eq}
use famfs.Meta.{Rc, failed}
use famfs.Log.{famfs_log_dir_creation}
use famfs.Log.Inv.{IsValid}
use famfs.Log.View.{Op, dir_creation, payload_of, exec_cases}
use famfs.Alloc.Build.Extents.{payload_extents}
use famfs.Host.{Posix}
use famfs.Files.Path.{RelPath, null, pointer, famfs_relpath_from_fullpath, join}
use famfs.Files.Create.{famfs_dir_create}
use famfs.Files.Mkfile.{Session, Setup}
use famfs.Files.Mkfile.Effects.{Written, same_log, one_more, Logged, no_none}
use famfs.Files.Mkdir.{DirArgs, is_ok, log_dir, create_dir, make_dir, parent_refused, __famfs_mkdir}

module _ (P : Posix) (env : Setup) (a : DirArgs) where
  ended :
      (c c0 c' : Session P.State) (rc rc' : Rc)
      → Logged env.sum c [] c0
      → Path (Option (Session P.State × Rc)) (some (c0, rc)) (some (c', rc'))
      → Logged env.sum c [] c'
  ended c c0 c' rc rc' l e =
      subst (λ (t : Session P.State × Rc). Logged env.sum c [] t.0)
        (some-injective (c0, rc) (c', rc') e) l

  log_effect :
      (relpath : List ℕ) (s : P.State) (c c' : Session P.State) (rc : Rc)
      → IsValid env.sum c.logp
      → log_dir P env a relpath (record c { fs = s }) ≡ some (c', rc)
      → Logged env.sum c [] c'
  unfolding log_dir payload_extents
  log_effect relpath s c c' rc v e =
      let op : Op = dir_creation relpath a.mode a.uid a.gid in
      elim (Option-cases (famfs_log_dir_creation env.sum c.logp relpath a.mode a.uid a.gid)) [
        | inl stop ↦ absurd (no_none (rw stop at e))
        | inr ((logp', rc0), run) ↦
            let written : Written env.sum c.logp [] logp' =
              elim (exec_cases env.sum c.logp logp' op rc0 v run) [
                | inl same ↦ same_log same
                | inr more ↦ one_more (payload_of op) refl more
              ] in
            ended c (record c { fs = s; logp = logp' }) c' rc0 rc
              (record { same_lp = refl; same_built = refl; log = written }) (rw run at e)
      ]

  same : (c : Session P.State) (s : P.State) → Logged env.sum c [] (record c { fs = s })
  same c s = record { same_lp = refl; same_built = refl; log = same_log refl }

  create_effect :
      (p : RelPath) (c c' : Session P.State) (rc : Rc)
      → IsValid env.sum c.logp
      → create_dir P env a c p ≡ some (c', rc)
      → Logged env.sum c [] c'
  unfolding create_dir log_dir
  create_effect null c c' rc v e = absurd (no_none e)
  create_effect (pointer none) c c' rc v e = absurd (no_none e)
  create_effect (pointer (some relpath)) c c' rc v e =
      let made = famfs_dir_create P c.fs (take 4095 env.mpt) relpath a.mode a.uid a.gid in
      elim (Bool-cases (is_ok made.1)) [
        | inl good ↦ log_effect relpath made.0 c c' rc v (rw good at e)
        | inr bad ↦ ended c (record c { fs = made.0 }) c' failed rc (same c made.0) (rw bad at e)
      ]

  make_effect :
      (fullpath : List ℕ) (c c' : Session P.State) (rc : Rc)
      → IsValid env.sum c.logp
      → make_dir P env a fullpath c ≡ some (c', rc)
      → Logged env.sum c [] c'
  unfolding make_dir
  make_effect fullpath c c' rc v e = elim (Bool-cases (list_eq (take 4095 env.mpt) fullpath)) [
    | inl mount ↦ ended c c c' failed rc (same c c.fs) (rw mount at e)
    | inr below ↦
        create_effect (famfs_relpath_from_fullpath (take 4095 env.mpt) fullpath) c c' rc v
          (rw below at e)
  ]

  pub mkdir_effect :
      (dirpath : List ℕ) (c c' : Session P.State) (rc : Rc)
      → IsValid env.sum c.logp
      → __famfs_mkdir P env a dirpath c ≡ some (c', rc)
      → Logged env.sum c [] c'
  unfolding __famfs_mkdir
  mkdir_effect dirpath c c' rc v e = elim (Option-cases (P.realpath c.fs dirpath)) [
    | inr (real, there) ↦ ended c c c' failed rc (same c c.fs) (rw (__famfs_mkdir, there) at e)
    | inl absent ↦ elim (Bool-cases (parent_refused P env (P.stat c.fs (P.dirname dirpath)))) [
      | inl refused ↦
          ended c c c' failed rc (same c c.fs) (rw (__famfs_mkdir, absent, refused) at e)
      | inr fine ↦ elim (Option-cases (P.realpath c.fs (P.dirname dirpath))) [
        | inl lost ↦
            ended c c c' failed rc (same c c.fs) (rw (__famfs_mkdir, absent, fine, lost) at e)
        | inr (realparent, found) ↦
            make_effect (join realparent (P.basename dirpath)) c c' rc v
              (rw (__famfs_mkdir, absent, fine, found) at e)
      ]
    ]
  ]
