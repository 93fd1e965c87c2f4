-- ===== src/Files/Mkfile/Paths.antt =====
-- The ways through `__famfs_mkfile` of src/famfs_lib.c: it returns before it allocates, or it allocates.
use mathlib.Core.Option.{some-injective}
use mathlib.Core.Path.{subst}
use famfs.Prelude.{
  ℕ, ◌<◌, ◌≡◌, ◌⊎◌, inl, inr, refl, true, ◌&&◌, ◌==◌, Option, some, List, arith, Bool-cases,
  Option-cases,
}
use famfs.Meta.{failed}
use famfs.Alloc.File.{LockedLog}
use famfs.Alloc.Strided.{StridedResult}
use famfs.Alloc.Choice.{ensure_bitmap, choose_alloc, famfs_file_alloc}
use famfs.Host.{Posix, Stat}
use famfs.Files.Create.{FdRc, error}
use famfs.Files.Mkfile.{
  Session, Setup, MkfileArgs, full_target, is_dir, is_reg, existing_file, place_file, alloc_file,
  __famfs_mkfile,
}
use famfs.Files.Mkfile.Effects.{no_none}

-- Only the file system differs.
pub record Unchanged {State : Type 0} (c c' : Session State) : Type 0 where
  pub same_lp : c'.lp ≡ c.lp
  pub same_built : c'.built ≡ c.built
  pub same_log : c'.logp ≡ c.logp

-- The parts of an allocation.
pub record Allocated (P : Posix) (env : Setup) (a : MkfileArgs) (c c' : Session P.State) (d : FdRc)
    : Type 0 where
  pub target : List ℕ
  pub lp1 : LockedLog
  pub lp2 : LockedLog
  pub result : StridedResult
  pub ensured : ensure_bitmap env.sum c.logp c.built c.lp ≡ some lp1
  pub chosen : choose_alloc env.mock_stripe env.rand lp1 a.size ≡ some (lp2, result)
  pub placed : place_file P env a target (record c { lp = lp2; built = true }) result ≡ some (c', d)

module _ (P : Posix) (env : Setup) (a : MkfileArgs) where
  same_after :
      (c c0 c' : Session P.State) (d d' : FdRc)
      → Unchanged c c0
      → Path (Option (Session P.State × FdRc)) (some (c0, d)) (some (c', d'))
      → Unchanged c c'
  same_after c c0 c' d d' u e =
      subst (λ (t : Session P.State × FdRc). Unchanged c t.0) (some-injective (c0, d) (c', d') e) u

  alloc_paths :
      (target : List ℕ) (c c' : Session P.State) (d : FdRc)
      → alloc_file P env a target c ≡ some (c', d)
      → Allocated P env a c c' d
  unfolding alloc_file famfs_file_alloc
  alloc_paths target c c' d e = elim (Option-cases (ensure_bitmap env.sum c.logp c.built c.lp)) [
    | inl stop ↦ absurd (no_none (rw stop at e))
    | inr (lp1, ensured) ↦ elim (Option-cases (choose_alloc env.mock_stripe env.rand lp1 a.size)) [
      | inl stop ↦ absurd (no_none (rw (ensured, stop) at e))
      | inr ((lp2, r), chosen) ↦ record {
        target = target;
        lp1 = lp1;
        lp2 = lp2;
        result = r;
        ensured = ensured;
        chosen = chosen;
        placed = rw (ensured, chosen) at e;
      }
    ]
  ]

  existing-Unchanged :
      (target : List ℕ) (c : Session P.State) (st : Stat)
      → Unchanged c (existing_file P env a target c st).0
  unfolding existing_file
  existing-Unchanged target c st =
      elim (Bool-cases (a.open_existing && is_reg st.st_kind && st.st_size == a.size)) [
        | inl yes_ ↦ rw yes_ (record { same_lp = refl; same_built = refl; same_log = refl })
        | inr no_ ↦ rw no_ (record { same_lp = refl; same_built = refl; same_log = refl })
      ]

  pub mkfile_paths :
      (c c' : Session P.State) (d : FdRc)
      → __famfs_mkfile P env a c ≡ some (c', d)
      → (0 < a.size) × (Unchanged c c' ⊎ Allocated P env a c c' d)
  unfolding __famfs_mkfile
  mkfile_paths c c' d e = elim (Bool-cases (a.size == 0)) [
    | inl empty ↦ absurd (no_none (rw empty at e))
    | inr some_ ↦ (
      ground arith,
      elim (Option-cases (full_target env.cwd a.filename)) [
        | inl stop ↦ absurd (no_none (rw (some_, stop) at e))
        | inr (target, full) ↦ elim (Option-cases (P.stat c.fs target)) [
          | inr (st, there) ↦ inl (
              same_after c (existing_file P env a target c st).0 c'
                (existing_file P env a target c st).1 d (existing-Unchanged target c st)
                (rw (some_, full, there) at e))
          | inl absent ↦ elim (Option-cases (P.stat c.fs (P.dirname target))) [
            | inl orphan ↦ inl (
                same_after c c c' (error failed) d
                  (record { same_lp = refl; same_built = refl; same_log = refl })
                  (rw (some_, full, absent, orphan) at e))
            | inr (st, parent) ↦ elim (Bool-cases (is_dir st.st_kind)) [
              | inl dir ↦
                  inr (alloc_paths target c c' d (rw (some_, full, absent, parent, dir) at e))
              | inr other ↦ inl (
                  same_after c c c' (error failed) d
                    (record { same_lp = refl; same_built = refl; same_log = refl })
                    (rw (some_, full, absent, parent, other) at e))
            ]
          ]
        ]
      ],
    )
  ]
