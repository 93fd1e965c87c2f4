-- ===== src/Files/Mkdir.antt =====
-- Making directories in a standalone mount: `__famfs_mkdir` and `famfs_make_parent_dir` of
-- src/famfs_lib.c.
pub mod Laws
pub mod Effects
use famfs.Prelude.{
  ℕ, zero, suc, Bool, true, false, ◌&&◌, ◌==◌, if◌then◌else◌, Option, none, some, ◌>>=◌, List, [],
  ◌∷◌,
}
use famfs.Prelude.Lists.{take, list_eq}
use famfs.Meta.{Rc, ok, failed, einval, enomem, enospc, erange, eexist, ebadf, eoverflow}
use famfs.Log.{famfs_log_dir_creation}
use famfs.Host.{Posix, Stat}
use famfs.Files.Path.{RelPath, null, pointer, famfs_relpath_from_fullpath, join}
use famfs.Files.Create.{famfs_dir_create}
use famfs.Files.Mkfile.{Session, Setup, is_dir}

-- What a caller asks for, besides the path.
pub record DirArgs : Type 0 where
  pub mode : ℕ
  pub uid : ℕ
  pub gid : ℕ

abbrev pub is_ok : Rc → Bool
is_ok ok = true
is_ok failed = false
is_ok einval = false
is_ok enomem = false
is_ok enospc = false
is_ok erange = false
is_ok eexist = false
is_ok ebadf = false
is_ok eoverflow = false

-- The outcome of a recursion on fuel whose body may stop.
pub data Run (A : Type 0) : Type 0 where
  no_fuel stopped : Run A
  done : A → Run A

pub ran : {A : Type 0} → Option A → Run A
ran none = stopped
ran (some a) = done a

module _ (P : Posix) (env : Setup) where
  open P use {State, stat, realpath, dirname, basename}

  pub log_dir : DirArgs → List ℕ → Session State → Option (Session State × Rc)
  log_dir a relpath c = do
    (logp', rc) ← famfs_log_dir_creation env.sum c.logp relpath a.mode a.uid a.gid
    some (record c { logp = logp' }, rc)

  -- `none` is a null relative path, which is printed, or one behind the terminator.
  pub create_dir : DirArgs → Session State → RelPath → Option (Session State × Rc)
  create_dir a c null = none
  create_dir a c (pointer none) = none
  create_dir a c (pointer (some relpath)) =
      let (s1, rc) = famfs_dir_create P c.fs (take 4095 env.mpt) relpath a.mode a.uid a.gid in
      if is_ok rc
      then log_dir a relpath (record c { fs = s1 })
      else some (record c { fs = s1 }, failed)

  pub make_dir : DirArgs → List ℕ → Session State → Option (Session State × Rc)
  make_dir a fullpath c =
      if list_eq (take 4095 env.mpt) fullpath
      then some (c, failed)
      else create_dir a c (famfs_relpath_from_fullpath (take 4095 env.mpt) fullpath)

  -- A parent that cannot be looked at is not an error here, but its real path is not found then.
  pub parent_refused : Option Stat → Bool
  parent_refused none = false
  parent_refused (some st) = if is_dir st.st_kind then false else true

  pub __famfs_mkdir : DirArgs → List ℕ → Session State → Option (Session State × Rc)
  __famfs_mkdir a dirpath c = elim (realpath c.fs dirpath) [
    | some real ↦ some (c, failed)
    | none ↦
        if parent_refused (stat c.fs (dirname dirpath))
        then some (c, failed)
        else elim (realpath c.fs (dirname dirpath)) [
          | none ↦ some (c, failed)
          | some realparent ↦ make_dir a (join realparent (basename dirpath)) c
        ]
  ]

  -- After the return of the recursive call for the parent.
  then_mkdir : DirArgs → List ℕ → Run (Session State × Rc) → Run (Session State × Rc)
  then_mkdir a path no_fuel = no_fuel
  then_mkdir a path stopped = stopped
  then_mkdir a path (done (c, rc)) =
      if is_ok rc then ran (__famfs_mkdir a path c) else done (c, failed)

  pub famfs_make_parent_dir : ℕ → DirArgs → List ℕ → Session State → Run (Session State × Rc)
  famfs_make_parent_dir zero a path c = no_fuel
  famfs_make_parent_dir (suc fuel) a path c =
      let parent = famfs_make_parent_dir fuel a (dirname path) c in
      elim (stat c.fs path) [
        | some st ↦ if is_dir st.st_kind then done (c, ok) else done (c, failed)
        | none ↦ then_mkdir a path parent
      ]
