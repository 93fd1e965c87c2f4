-- ===== src/Host/Laws.antt =====
-- What the code relies on of the calls on paths: no call that makes or maps something removes another
-- path, and what is made is there.
use famfs.Prelude.{ℕ, ◌≡◌, true, some, List}
use famfs.Host.{Posix, Stat, directory, IocFmap}

module _ (P : Posix) where
  open P use {State, stat}

  pub record IsThere (s : State) (path : List ℕ) : Type 0 where
    pub found : Stat
    pub there : stat s path ≡ some found

  pub record IsDirectory (s : State) (path : List ℕ) : Type 0 where
    pub found : Stat
    pub there : stat s path ≡ some found
    pub kind : found.st_kind ≡ directory

  -- Every path of `s` is in `s'`, and of the same kind.
  pub record Keeps (s s' : State) : Type 0 where
    pub paths : (path : List ℕ) → IsThere s path → IsThere s' path
    pub directories : (path : List ℕ) → IsDirectory s path → IsDirectory s' path

  pub Keeps-refl : (s : State) → Keeps s s
  Keeps-refl s = record { paths = λ path h. h; directories = λ path h. h }

  pub Keeps-trans : (s t u : State) → Keeps s t → Keeps t u → Keeps s u
  Keeps-trans s t u h k = record {
    paths = λ path there. k.paths path (h.paths path there);
    directories = λ path there. k.directories path (h.directories path there);
  }

  pub record IsPlain : Type 0 where
    pub open_create_keeps :
        (s : State) (path : List ℕ) (mode : ℕ) → Keeps s (P.open_create s path mode).0
    pub open_create_makes :
        (s : State) (path : List ℕ) (mode d : ℕ)
        → (P.open_create s path mode).1 ≡ some d
        → IsThere (P.open_create s path mode).0 path
    pub close_keeps : (s : State) (d : ℕ) → Keeps s (P.close s d)
    pub fchown_keeps : (s : State) (d uid gid : ℕ) → Keeps s (P.fchown s d uid gid)
    pub map_keeps : (s : State) (d : ℕ) (m : IocFmap) → Keeps s (P.map_create_v2 s d m).0
    pub mkdir_keeps : (s : State) (path : List ℕ) (mode : ℕ) → Keeps s (P.mkdir s path mode).0
    pub mkdir_makes :
        (s : State) (path : List ℕ) (mode : ℕ)
        → (P.mkdir s path mode).1 ≡ true
        → IsDirectory (P.mkdir s path mode).0 path
    pub chown_keeps : (s : State) (path : List ℕ) (uid gid : ℕ) → Keeps s (P.chown s path uid gid).0
