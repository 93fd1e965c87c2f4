-- ===== src/Files/Mkfile.antt =====
-- Making a file in a standalone mount: `__famfs_mkfile` of src/famfs_lib.c, with `lp->shadow_root` not set.
pub mod Effects
pub mod Paths
use famfs.Prelude.{
  ℕ, zero, suc, ◌+◌, ◌^◌, Bool, true, false, ◌&&◌, not, ◌==◌, ltb, if◌then◌else◌, Option, none,
  some, ◌>>=◌, ◌>>◌, assert, List, ◌∷◌, ◌++◌, u64, is_negative,
}
use famfs.Prelude.Lists.{length, take}
use famfs.Meta.{
  Rc, ok, failed, einval, enomem, enospc, erange, eexist, ebadf, eoverflow, LogFmap, FamfsLog,
  Checksum,
}
use famfs.Meta.Fmap.{fmap_nextents}
use famfs.Log.{famfs_log_file_creation}
use famfs.Alloc.File.{LockedLog}
use famfs.Alloc.Strided.{StridedResult, refused, returned}
use famfs.Alloc.Choice.{famfs_file_alloc}
use famfs.Host.{Posix, Stat, FileKind, directory, regular, special}
use famfs.Files.Path.{path_max, RelPath, null, pointer, famfs_relpath_from_fullpath, is_absolute}
use famfs.Files.Create.{FdRc, fd, error, famfs_file_create_stub, famfs_v2_set_file_map}

-- What the holder of the lock works on: the file system, the log, and the rest of `struct
-- famfs_locked_log`, where `built` says that `lp->bitmap` is set.
pub record Session (State : Type 0) : Type 0 where
  pub fs : State
  pub logp : FamfsLog
  pub lp : LockedLog
  pub built : Bool

-- What does not change while the lock is held: `lp->mpt`, the working directory, the globals
-- `mock_kmod` and `mock_stripe`, the checksum and the random numbers.
pub record Setup : Type 0 where
  pub mpt : List ℕ
  pub cwd : List ℕ
  pub mock_kmod : Bool
  pub mock_stripe : Bool
  pub sum : Checksum
  pub rand : ℕ → ℕ

-- What a caller asks for.
pub record MkfileArgs : Type 0 where
  pub filename : List ℕ
  pub mode : ℕ
  pub uid : ℕ
  pub gid : ℕ
  pub size : ℕ
  pub open_existing : Bool

-- `target_fullpath`, with the assertion on its length
unfoldable pub full_target : List ℕ → List ℕ → Option (List ℕ)
full_target cwd filename = if is_absolute filename then some filename else (do
  assert (ltb (length cwd + length filename + 2) path_max)
  some (cwd ++ b'/' ∷ filename))

unfoldable pub is_dir : FileKind → Bool
is_dir directory = true
is_dir regular = false
is_dir special = false

pub is_reg : FileKind → Bool
is_reg directory = false
is_reg regular = true
is_reg special = false

-- `if (rc) return rc; ... return fd;`
unfoldable pub rc_or : Rc → FdRc → FdRc
rc_or ok d = d
rc_or failed d = error failed
rc_or einval d = error einval
rc_or enomem d = error enomem
rc_or enospc d = error enospc
rc_or erange d = error erange
rc_or eexist d = error eexist
rc_or ebadf d = error ebadf
rc_or eoverflow d = error eoverflow

opened : Option ℕ → FdRc
opened none = error failed
opened (some d) = fd d

module _ (P : Posix) (env : Setup) where
  open P use {State, stat, open_rw, close, dirname}

  -- The file is logged and the lock holder's descriptor returned.
  unfoldable pub log_file :
      MkfileArgs → LogFmap → List ℕ → Session State → FdRc → Option (Session State × FdRc)
  log_file a fmap relpath c d = do
    (logp', rc) ← famfs_log_file_creation env.sum c.logp fmap relpath a.mode a.uid a.gid a.size
    some (record c { logp = logp' }, rc_or rc d)

  -- A map that cannot be set closes the file, and the file is logged all the same.
  unfoldable pub after_map : ℕ → State × Rc → State × FdRc
  after_map d (s, ok) = (s, fd d)
  after_map d (s, rc) = (close s d, error rc)

  -- The new file is mapped unless the kernel module is mocked.
  unfoldable pub map_file :
      MkfileArgs → LogFmap → List ℕ → Session State → FdRc → Option (Session State × FdRc)
  map_file a fmap relpath c (error rc) = some (c, error rc)
  map_file a fmap relpath c (fd zero) = some (c, fd 0)
  map_file a fmap relpath c (fd (suc d)) =
      if env.mock_kmod then log_file a fmap relpath c (fd (suc d)) else (do
        mapped ← famfs_v2_set_file_map P c.fs (suc d) a.size fmap
        log_file a fmap relpath (record c { fs = (after_map (suc d) mapped).0 })
            (after_map (suc d) mapped).1)

  -- `none` is a read behind the end of the path.
  unfoldable pub create_file :
      MkfileArgs → LogFmap → Session State → RelPath → Option (Session State × FdRc)
  create_file a fmap c null = some (c, error failed)
  create_file a fmap c (pointer none) = none
  create_file a fmap c (pointer (some relpath)) =
      let (s1, made) = famfs_file_create_stub P c.fs a.filename a.mode a.uid a.gid false in
      map_file a fmap relpath (record c { fs = s1 }) made

  -- After the allocation.
  unfoldable pub place_file :
      MkfileArgs → List ℕ → Session State → StridedResult → Option (Session State × FdRc)
  place_file a target c (refused check) = some (c, error failed)
  place_file a target c (returned ok none) = none
  place_file a target c (returned ok (some fmap)) = do
    assert (fmap_nextents fmap == 1)
    create_file a fmap c (famfs_relpath_from_fullpath (take 4095 env.mpt) target)
  place_file a target c (returned rc fmap) = some (c, error failed)

  unfoldable pub alloc_file : MkfileArgs → List ℕ → Session State → Option (Session State × FdRc)
  alloc_file a target c = do
    (lp', r) ← famfs_file_alloc env.sum env.mock_stripe env.rand c.logp c.built c.lp a.size
    place_file a target (record c { lp = lp'; built = true }) r

  pub existing_file : MkfileArgs → List ℕ → Session State → Stat → Session State × FdRc
  existing_file a target c st =
      if a.open_existing && is_reg st.st_kind && st.st_size == a.size
      then (let (s1, d) = open_rw c.fs target in (record c { fs = s1 }, opened d))
      else (c, error failed)

  unfoldable pub __famfs_mkfile : MkfileArgs → Session State → Option (Session State × FdRc)
  __famfs_mkfile a c = do
    assert (not (a.size == 0))
    target ← full_target env.cwd a.filename
    elim (stat c.fs target) [
      | some st ↦ some (existing_file a target c st)
      | none ↦ elim (stat c.fs (dirname target)) [
        | none ↦ some (c, error failed)
        | some st ↦ if is_dir st.st_kind then alloc_file a target c else some (c, error failed)
      ]
    ]
