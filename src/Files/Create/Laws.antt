-- ===== src/Files/Create/Laws.antt =====
-- What `famfs_file_create_stub`, `famfs_v2_set_file_map` and `famfs_dir_create` of src/famfs_lib.c leave
-- on the host.
use mathlib.Core.Option.{some-injective}
use mathlib.Core.Path.{subst}
use famfs.Prelude.{
  ℕ, ◌≡◌, ◌≢◌, arith, ◌⊎◌, inl, inr, refl, ap, Bool, true, false, ◌&&◌, not, ◌==◌, if◌then◌else◌,
  Option, none, some, List, Bool-cases, Option-cases,
}
use famfs.Meta.{Rc, failed, ebadf, LogFmap}
use famfs.Host.{Posix, IocFmap}
use famfs.Host.Laws.{IsThere, IsDirectory, Keeps, Keeps-refl, Keeps-trans, IsPlain}
use famfs.Files.Path.{join}
use famfs.Files.Mkdir.{is_ok}
use famfs.Files.Mkfile.Effects.{no_none}
use famfs.Files.Create.{
  FdRc, fd, error, read_only, ioc_fmap, stub_opened, famfs_file_create_stub, map_file_as,
  famfs_v2_set_file_map, famfs_dir_create,
}

failed_bad : is_ok failed ≡ true → ⊥
failed_bad e = cc

fd_of : FdRc → ℕ
fd_of (fd d) = d
fd_of (error rc) = 0

fd-injective : (d e : ℕ) → fd d ≡ fd e → d ≡ e
unfolding fd_of
fd-injective d e h = ap fd_of h

module _ (P : Posix) (plain : IsPlain P) where
  -- A stub that was created.
  pub record IsMade (s s' : P.State) (path : List ℕ) : Type 0 where
    pub keeps : Keeps P s s'
    pub made : IsThere P s' path

  owned_stub :
      (s : P.State) (b : Bool) (d uid gid : ℕ) → Keeps P s (if b then P.fchown s d uid gid else s)
  owned_stub s true d uid gid = plain.fchown_keeps s d uid gid
  owned_stub s false d uid gid = Keeps-refl P s

  abbrev pub StubOutcome : P.State → List ℕ → P.State × FdRc → Type 0
  StubOutcome s path r =
      ((rc : Rc) × (r.1 ≡ error rc)) ⊎ ((d : ℕ) × (r.1 ≡ fd d) × IsMade s r.0 path)

  opened_cases :
      (s : P.State) (path : List ℕ) (uid gid : ℕ) (o : P.State × Option ℕ)
      → Keeps P s o.0
      → ((d : ℕ) → o.1 ≡ some d → IsThere P o.0 path)
      → StubOutcome s path (stub_opened P path uid gid o)
  unfolding stub_opened
  opened_cases s path uid gid (s1, none) k m = inl (failed, refl)
  opened_cases s path uid gid (s1, some d) k m = elim (Bool-cases (P.is_famfs_v1 s1 d)) [
    | inr foreign ↦ rw foreign (inl (ebadf, refl))
    | inl famfs_ ↦
        let owned = owned_stub s1 (not (uid == 0) && not (gid == 0)) d uid gid in
        rw famfs_ (
          inr (
            d,
            refl,
            record { keeps = Keeps-trans P s s1 _ k owned; made = owned.paths path (m d refl) },
          ))
  ]

  -- The stub is an error, or its file is there and nothing else went away.
  pub stub_cases :
      (s : P.State) (path : List ℕ) (mode uid gid : ℕ) (disable_write : Bool)
      → StubOutcome s path (famfs_file_create_stub P s path mode uid gid disable_write)
  unfolding famfs_file_create_stub
  stub_cases s path mode uid gid disable_write = elim (Option-cases (P.stat s path)) [
    | inr (st, found) ↦ rw (famfs_file_create_stub, found) (inl (failed, refl))
    | inl absent ↦
        let m = if disable_write then read_only mode else mode in
        rw (famfs_file_create_stub, absent)
          (opened_cases s path uid gid (P.open_create s path m) (plain.open_create_keeps s path m)
            (plain.open_create_makes s path m))
  ]

  map_as-Keeps : (s : P.State) (d : ℕ) (m : Option IocFmap) → Keeps P s (map_file_as P s d m).0
  unfolding map_file_as
  map_as-Keeps s d none = Keeps-refl P s
  map_as-Keeps s d (some m) = plain.map_keeps s d m

  pub set_map-Keeps :
      (s s' : P.State) (d size : ℕ) (fm : LogFmap) (rc : Rc)
      → famfs_v2_set_file_map P s d size fm ≡ some (s', rc)
      → Keeps P s s'
  unfolding famfs_v2_set_file_map
  set_map-Keeps s s' d size fm rc e = elim (Bool-cases (d == 0)) [
    | inl zero_ ↦ absurd (no_none (rw zero_ at e))
    | inr positive ↦
        let r = map_file_as P s d (ioc_fmap size fm) in
        subst (λ (t : P.State × Rc). Keeps P s t.0) (some-injective r (s', rc) (rw positive at e))
          (map_as-Keeps s d (ioc_fmap size fm))
  ]

  -- A directory that was created is there, and nothing else went away.
  pub dir_create_lem :
      (s : P.State) (mpt rpath : List ℕ) (mode uid gid : ℕ)
      → let r = famfs_dir_create P s mpt rpath mode uid gid in
        is_ok r.1 ≡ true → Keeps P s r.0 × IsDirectory P r.0 (join mpt rpath)
  unfolding famfs_dir_create
  dir_create_lem s mpt rpath mode uid gid e =
      let path = join mpt rpath in
      let s1 = (P.mkdir s path mode).0 in
      let k1 = plain.mkdir_keeps s path mode in
      let k2 = plain.chown_keeps s1 path uid gid in
      elim (Bool-cases (P.mkdir s path mode).1) [
        | inr not_made ↦ absurd (failed_bad (rw not_made at e))
        | inl made ↦
            let d = plain.mkdir_makes s path mode made in
            elim (Bool-cases (not (uid == 0) && not (gid == 0))) [
              | inl owned ↦
                  rw (made, owned)
                    (Keeps-trans P s s1 (P.chown s1 path uid gid).0 k1 k2, k2.directories path d)
              | inr root ↦ rw (made, root) (k1, d)
            ]
      ]

-- Where descriptors are positive, as they are while 0, 1 and 2 are open, no assertion fails.
module _ (P : Posix)
    (positive : (s : P.State) (path : List ℕ) (mode : ℕ)
      → (P.open_create s path mode).1 ≢ some 0) where
  opened_positive :
      (path : List ℕ) (uid gid : ℕ) (o : P.State × Option ℕ)
      → o.1 ≢ some 0
      → (stub_opened P path uid gid o).1 ≢ fd 0
  unfolding stub_opened
  opened_positive path uid gid (s, none) h = λ e. cc
  opened_positive path uid gid (s, some d) h = elim (Bool-cases (P.is_famfs_v1 s d)) [
    | inr foreign ↦ rw foreign (λ e. cc)
    | inl famfs_ ↦ rw famfs_ (λ e. h (ap (λ (t : ℕ). some t) (fd-injective d 0 e)))
  ]

  pub stub_positive :
      (s : P.State) (path : List ℕ) (mode uid gid : ℕ) (disable_write : Bool)
      → (famfs_file_create_stub P s path mode uid gid disable_write).1 ≢ fd 0
  unfolding famfs_file_create_stub
  stub_positive s path mode uid gid disable_write = elim (Option-cases (P.stat s path)) [
    | inr (st, found) ↦ rw (famfs_file_create_stub, found) (λ e. cc)
    | inl absent ↦
        let m = if disable_write then read_only mode else mode in
        rw (famfs_file_create_stub, absent)
          (opened_positive path uid gid (P.open_create s path m) (positive s path m))
  ]

  pub set_map_returns :
      (s : P.State) (d size : ℕ) (fm : LogFmap)
      → d ≢ 0
      → (s' : P.State) × (rc : Rc) × (famfs_v2_set_file_map P s d size fm ≡ some (s', rc))
  unfolding famfs_v2_set_file_map
  set_map_returns s d size fm ne =
      let nonzero : not (d == 0) ≡ true = ground (arith, ne) in
      let r = map_file_as P s d (ioc_fmap size fm) in (r.0, r.1, rw nonzero refl)
