-- ===== src/Files/Session.antt =====
-- What can happen to a file system over time, as steps between the states that the holders of the log's
-- lock see: calls of `__famfs_mkfile`, `__famfs_mkdir` and `famfs_add_daxdev` (src/famfs_lib.c), and the
-- lock's release and the next `famfs_init_locked_log`.
pub mod Space
pub mod Laws
pub mod Safety
use famfs.Prelude.{ℕ, ◌^◌, ◌<◌, ◌≡◌, Bool, true, false, Option, some, List}
use famfs.Meta.{Rc}
use famfs.Log.{famfs_add_daxdev}
use famfs.Alloc.Param.{InterleaveParam, alloc_is_interleaved}
use famfs.Alloc.File.{LockedLog}
use famfs.Alloc.Strided.Calls.{IsStripable}
use famfs.Host.{Posix}
use famfs.Files.Create.{FdRc}
use famfs.Files.Mkfile.{Session, Setup, MkfileArgs, __famfs_mkfile}
use famfs.Files.Mkdir.{DirArgs, __famfs_mkdir}

-- A size whose pages an `int` counts and, where the file is striped, at most 16 buckets.
pub record IsModest (lp : LockedLog) (size : ℕ) : Type 0 where
  pub size_word : size < 2 ^ 51
  pub stripable : alloc_is_interleaved lp.interleave_param ≡ true → IsStripable lp size

pub data Step (P : Posix) (env : Setup) : Session P.State → Session P.State → Type 0 where
  made_file :
      (a : MkfileArgs) (c c' : Session P.State) (d : FdRc)
      → __famfs_mkfile P env a c ≡ some (c', d)
      → Step P env c c'
  made_dir :
      (a : DirArgs) (path : List ℕ) (c c' : Session P.State) (rc : Rc)
      → __famfs_mkdir P env a path c ≡ some (c', rc)
      → Step P env c c'
  added_daxdev :
      (c : Session P.State) (size : ℕ) (uuid : List ℕ) (index : ℕ)
      → Step P env c (record c { logp = (famfs_add_daxdev env.sum c.logp size uuid index).0 })
  -- Others may have changed the file system meanwhile, but not the log.
  reopened :
      (c : Session P.State) (s : P.State) (p : InterleaveParam)
      → Step P env c
          (record c { fs = s; lp = record (c.lp) { interleave_param = p }; built = false })

pub data Reach (P : Posix) (env : Setup) (c : Session P.State) : Session P.State → Type 0 where
  start : Reach P env c c
  later : (c1 c2 : Session P.State) → Reach P env c c1 → Step P env c1 c2 → Reach P env c c2

module _ (P : Posix) (env : Setup) where
  -- The files that a step, or all steps, make are modest.
  abbrev pub StepFits : (c c' : Session P.State) → Step P env c c' → Type 0
  StepFits _ _ (made_file a c c' d e) = IsModest c.lp a.size
  StepFits _ _ (made_dir a path c c' rc e) = Unit {0}
  StepFits _ _ (added_daxdev c size uuid index) = Unit {0}
  StepFits _ _ (reopened c s p) = Unit {0}

  abbrev pub AllFit : (c c' : Session P.State) → Reach P env c c' → Type 0
  AllFit c _ start = Unit {0}
  AllFit c _ (later c1 c2 r s) = AllFit c c1 r × StepFits c1 c2 s
