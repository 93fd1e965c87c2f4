-- ===== src/Files/Create.antt =====
-- Creating what a log entry describes: `famfs_file_create_stub`, `famfs_v2_set_file_map`,
-- `famfs_dir_create` and `famfs_shadow_file_create` of src/famfs_lib.c.
pub mod Laws
use famfs.Prelude.{
  ℕ, zero, suc, ◌+◌, ◌-◌, ◌^◌, Bool, ◌&&◌, not, ◌==◌, ltb, if◌then◌else◌, Option, none, some, ◌>>=◌,
  ◌>>◌, assert, bit_and, List, [], ◌∷◌,
}
use famfs.Meta.{
  Rc, ok, failed, einval, ebadf, LogFmap, SimpleExtent, ext_simple, ext_interleave,
  max_simple_extents,
}
use famfs.Meta.Fmap.{fmap_nextents, se, ie_nstrips, ie_chunk_size, ie_strips}
use famfs.Host.{Posix, IocFmap, IocInterleaved}
use famfs.Files.Path.{join}

-- An `int` that is a descriptor or an error.
pub data FdRc : Type 0 where
  fd : ℕ → FdRc
  error : Rc → FdRc

-- The `left` extents from i on, as a list.
pub extent_list : (ℕ → SimpleExtent) → ℕ → ℕ → List SimpleExtent
extent_list f zero i = []
extent_list f (suc left) i = f i ∷ extent_list f left (i + 1)

-- What is left of an array after its beginning is written.
pub overlay : List SimpleExtent → List SimpleExtent → List SimpleExtent
overlay [] old = old
overlay (x ∷ xs) [] = x ∷ xs
overlay (x ∷ xs) (y ∷ ys) = x ∷ overlay xs ys

-- mode & ~(S_IWUSR | S_IWGRP | S_IWOTH)
abbrev pub read_only : ℕ → ℕ
read_only mode = bit_and mode (2 ^ 32 - 1 - 0o222)

-- The interleaved extents for the ioctl, with `left` from i on; `none`: an extent has too many strips.
-- The strips of all of them are written into one array, `kse`.
pub ioc_extents :
    LogFmap → ℕ → ℕ → ℕ → List SimpleExtent → Option (List IocInterleaved × List SimpleExtent)
ioc_extents fm size zero i kse = some ([], kse)
ioc_extents fm size (suc left) i kse =
    let rest =
      ioc_extents fm size left (i + 1)
        (overlay (extent_list (ie_strips fm i) (ie_nstrips fm i) 0) kse) in
    if ltb max_simple_extents (ie_nstrips fm i) then none else (do
      (kie, strips) ← rest
      some (
        record {
          ioc_nstrips = ie_nstrips fm i;
          ioc_chunk_size = ie_chunk_size fm i;
          ioc_nbytes = size;
        }
            ∷ kie,
        strips,
      ))

-- What the ioctl is called with; `none` is -EINVAL.
unfoldable pub ioc_fmap : ℕ → LogFmap → Option IocFmap
ioc_fmap size fm =
    let kie = ioc_extents fm size (fmap_nextents fm) 0 [] in
    if fm.fmap_ext_type == ext_simple
    then (if ltb max_simple_extents (fmap_nextents fm)
        then none
        else some (record {
          fioc_file_size = size;
          fioc_ext_type = ext_simple;
          fioc_nextents = fmap_nextents fm;
          kse = extent_list (se fm) (fmap_nextents fm) 0;
          kie = [];
        }))
    else if fm.fmap_ext_type == ext_interleave
    then (do
      (extents, strips) ← kie
      some (record {
        fioc_file_size = size;
        fioc_ext_type = ext_interleave;
        fioc_nextents = fmap_nextents fm;
        kse = strips;
        kie = extents;
      }))
    else none

module _ (P : Posix) where
  open P use {State, stat, open_create, is_famfs_v1, close, unlink, fchown, map_create_v2, chown}

  -- After the open, in `famfs_file_create_stub`.
  unfoldable pub stub_opened : List ℕ → ℕ → ℕ → State × Option ℕ → State × FdRc
  stub_opened path uid gid (s, none) = (s, error failed)
  stub_opened path uid gid (s, some d) =
      if not (is_famfs_v1 s d)
      then (unlink (close s d) path, error ebadf)
      else (if not (uid == 0) && not (gid == 0) then fchown s d uid gid else s, fd d)

  unfoldable pub famfs_file_create_stub : State → List ℕ → ℕ → ℕ → ℕ → Bool → State × FdRc
  famfs_file_create_stub s path mode uid gid disable_write = elim (stat s path) [
    | some st ↦ (s, error failed)
    | none ↦
        stub_opened path uid gid
          (open_create s path (if disable_write then read_only mode else mode))
  ]

  unfoldable pub map_file_as : State → ℕ → Option IocFmap → State × Rc
  map_file_as s d none = (s, einval)
  map_file_as s d (some map) =
      let (s1, good) = map_create_v2 s d map in (s1, if good then ok else failed)

  -- `none`: the assertion that the descriptor is positive failed.
  unfoldable pub famfs_v2_set_file_map : State → ℕ → ℕ → LogFmap → Option (State × Rc)
  famfs_v2_set_file_map s d size fm = do
    assert (not (d == 0))
    some (map_file_as s d (ioc_fmap size fm))

  unfoldable pub famfs_dir_create : State → List ℕ → List ℕ → ℕ → ℕ → ℕ → State × Rc
  famfs_dir_create s mpt rpath mode uid gid =
      let path = join mpt rpath in
      let (s1, made) = P.mkdir s path mode in
      let (s2, changed) = chown s1 path uid gid in
      if not made
      then (s1, failed)
      else if not (uid == 0) && not (gid == 0)
      then (s2, if changed then ok else failed)
      else (s1, ok)
