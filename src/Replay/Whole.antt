-- ===== src/Replay/Whole.antt =====
-- A valid log is played to its end by `__famfs_logplay` (src/famfs_lib.c), and what its statistics count.
use famfs.Prelude.{ℕ, zero, suc, ◌+◌, ◌≤◌, ◌≡◌, ◌≢◌, false, Option, some, List}
use famfs.Meta.{LogPayload, file, mkdir, add_daxdev, other, LogEntry, LogStats}
use famfs.Host.{Posix}
use famfs.Replay.{Play, PlayArgs}

-- Each file of the log existed, was created, or has errors; each directory exactly one of the three.
pub record IsCounted (ls : LogStats) : Type 0 where
  pub files_once : ls.f_existed + ls.f_created ≤ ls.f_logged
  pub files_all : ls.f_logged ≤ ls.f_existed + ls.f_created + ls.f_errs
  pub dirs : ls.d_logged ≡ ls.d_existed + ls.d_created + ls.d_errs
  pub yaml : ls.yaml_errs ≡ 0

-- 1 for an entry of a file, for one of a directory
abbrev pub of_file : LogPayload → ℕ
of_file (file fm) = 1
of_file (mkdir md) = 0
of_file (add_daxdev dd) = 0
of_file (other t) = 0

abbrev pub of_dir : LogPayload → ℕ
of_dir (file fm) = 0
of_dir (mkdir md) = 1
of_dir (add_daxdev dd) = 0
of_dir (other t) = 0

-- The number of the entries of a kind, of the `left` from i on
unfoldable pub count : (LogPayload → ℕ) → (ℕ → LogEntry) → ℕ → ℕ → ℕ
count kind entries zero i = 0
count kind entries (suc left) i = kind (entries i).payload + count kind entries left (i + 1)

module _ (P : Posix) (a : PlayArgs)
    (positive : (s : P.State) (path : List ℕ) (mode : ℕ) → (P.open_create s path mode).1 ≢ some 0)
    (wet : a.dry_run ≡ false) where
  -- The play goes on, with the entries and the statistics counted.
  pub record GoesOn (n f d : ℕ) (r : Option (Play P.State)) : Type 0 where
    pub next : Play P.State
    pub returns : r ≡ some next
    pub counted : IsCounted next.ls
    pub entries : next.ls.n_entries ≡ n
    pub logged_files : next.ls.f_logged ≡ f
    pub logged_dirs : next.ls.d_logged ≡ d
