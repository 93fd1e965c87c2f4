-- ===== src/Files/Mkdir/Laws.antt =====
-- `famfs_make_parent_dir` of src/famfs_lib.c ends: the path becomes shorter until a directory exists.
use famfs.Prelude.{ℕ, ◌<◌, ◌≡◌, ◌≢◌, Bool, true, false, if◌then◌else◌, none, List, [], ◌∷◌, ◌==◌}
use famfs.Prelude.Lists.{length}
use famfs.Host.{Posix}
use famfs.Files.Path.{is_absolute}

-- A path of slashes alone
unfoldable pub only_slashes : List ℕ → Bool
only_slashes [] = true
only_slashes (c ∷ path) = if c == b'/' then only_slashes path else false

-- What POSIX says of `dirname` and of the root directory, which a path of slashes names.
pub record HasRoot (P : Posix) (s : P.State) : Type 0 where
  pub root_exists : (path : List ℕ) → only_slashes path ≡ true → P.stat s path ≢ none
  pub stays_absolute :
      (path : List ℕ) → is_absolute path ≡ true → is_absolute (P.dirname path) ≡ true
  pub shorter :
      (path : List ℕ)
      → is_absolute path ≡ true
      → only_slashes path ≡ false
      → length (P.dirname path) < length path
