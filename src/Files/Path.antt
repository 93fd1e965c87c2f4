-- ===== src/Files/Path.antt =====
-- Paths of src/famfs_lib.c: `famfs_relpath_from_fullpath` and the buffers of PATH_MAX bytes.
pub mod Laws
use famfs.Prelude.{
  ℕ, zero, suc, ◌+◌, Bool, true, false, ◌&&◌, ◌==◌, if◌then◌else◌, Option, none, some, List, [],
  ◌∷◌, ◌++◌,
}
use famfs.Prelude.Lists.{length, take}

-- PATH_MAX
abbrev pub path_max : ℕ
path_max = 4096

-- `strstr(s, prefix) == s`
unfoldable pub starts_with : List ℕ → List ℕ → Bool
starts_with s [] = true
starts_with [] (c ∷ cs) = false
starts_with (x ∷ xs) (c ∷ cs) = x == c && starts_with xs cs

-- `&s[n]`; `none` is a pointer behind the terminator.
unfoldable pub from_index : List ℕ → ℕ → Option (List ℕ)
from_index s zero = some s
from_index [] (suc n) = none
from_index (x ∷ xs) (suc n) = from_index xs n

-- The pointer that is returned, NULL if `fullpath` does not begin with `mpt`.
pub data RelPath : Type 0 where
  null : RelPath
  pointer : Option (List ℕ) → RelPath

unfoldable pub famfs_relpath_from_fullpath : List ℕ → List ℕ → RelPath
famfs_relpath_from_fullpath mpt fullpath =
    if starts_with fullpath mpt then pointer (from_index fullpath (length mpt + 1)) else null

-- snprintf(buf, PATH_MAX - 1, "%s/%s", dir, path)
abbrev pub join : List ℕ → List ℕ → List ℕ
join dir path = take 4094 (dir ++ b'/' ∷ path)

abbrev pub is_absolute : List ℕ → Bool
is_absolute [] = false
is_absolute (c ∷ cs) = c == b'/'
