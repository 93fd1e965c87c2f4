-- ===== src/Files/Mkfile/Effects.antt =====
-- What `__famfs_mkfile` of src/famfs_lib.c does to the log: nothing, or one entry with the map that was
-- allocated.
use mathlib.Core.Option.{some-injective}
use mathlib.Core.Path.{subst}
use famfs.Prelude.{
  ℕ, zero, suc, ◌≡◌, inl, inr, refl, ◌∙◌, ap, sym, false, ◌==◌, Option, none, some, List,
  Bool-cases, Option-cases,
}
use famfs.Prelude.Lists.{take}
use famfs.Meta.{
  Rc, ok, failed, einval, enomem, enospc, erange, eexist, ebadf, eoverflow, SimpleExtent, LogFmap,
  FamfsLog, Checksum, LogPayload,
}
use famfs.Meta.Fmap.{fmap_nextents}
use famfs.Log.{famfs_log_file_creation}
use famfs.Log.Inv.{IsValid, Appended}
use famfs.Log.View.{Op, file_creation, payload_of, exec_cases}
use famfs.Alloc.Strided.{refused, returned}
use famfs.Alloc.Build.Extents.{fmap_extents, payload_extents}
use famfs.Alloc.Param.{ParamCheck}
use famfs.Host.{Posix}
use famfs.Files.Path.{RelPath, null, pointer, famfs_relpath_from_fullpath}
use famfs.Files.Create.{FdRc, fd, error, famfs_file_create_stub, famfs_v2_set_file_map}
use famfs.Files.Mkfile.{
  Session, Setup, MkfileArgs, rc_or, log_file, after_map, map_file, create_file, place_file,
}

-- The log has the same entries, or one more, whose extents are `es`.
pub data Written (sum : Checksum) (logp : FamfsLog) (es : List SimpleExtent) (logp' : FamfsLog)
    : Type 0 where
  same_log : logp' ≡ logp → Written sum logp es logp'
  one_more :
      (e : LogPayload)
      → payload_extents e ≡ es
      → Appended sum logp e logp'
      → Written sum logp es logp'

pub record Logged (sum : Checksum) {State : Type 0} (c : Session State) (es : List SimpleExtent)
    (c' : Session State) : Type 0 where
  pub same_lp : c'.lp ≡ c.lp
  pub same_built : c'.built ≡ c.built
  pub log : Written sum c.logp es c'.logp

pub no_none {ℓ} : {A : Type ℓ} {x : A} → none ≡ some x → ⊥
no_none e = cc

module _ (P : Posix) (env : Setup) (a : MkfileArgs) (fmap : LogFmap) where
  file_logged :
      (logp logp' : FamfsLog) (relpath : List ℕ) (rc : Rc)
      → IsValid env.sum logp
      → famfs_log_file_creation env.sum logp fmap relpath a.mode a.uid a.gid a.size
        ≡ some (logp', rc)
      → Written env.sum logp (fmap_extents fmap) logp'
  unfolding payload_extents
  file_logged logp logp' relpath rc v e =
      let op : Op = file_creation fmap relpath a.mode a.uid a.gid a.size in
      elim (exec_cases env.sum logp logp' op rc v e) [
        | inl same ↦ same_log same
        | inr more ↦ one_more (payload_of op) refl more
      ]

  -- Sessions that differ in the file system only
  ended :
      (c c0 c' : Session P.State) (d d' : FdRc)
      → c0.lp ≡ c.lp
      → c0.built ≡ c.built
      → Written env.sum c.logp (fmap_extents fmap) c0.logp
      → Path (Option (Session P.State × FdRc)) (some (c0, d)) (some (c', d'))
      → Logged env.sum c (fmap_extents fmap) c'
  ended c c0 c' d d' l b w e =
      subst (λ (t : Session P.State × FdRc). Logged env.sum c (fmap_extents fmap) t.0)
        (some-injective (c0, d) (c', d') e) (record { same_lp = l; same_built = b; log = w })

  log_effect :
      (relpath : List ℕ) (c c' : Session P.State) (d d' : FdRc)
      → IsValid env.sum c.logp
      → log_file P env a fmap relpath c d ≡ some (c', d')
      → Logged env.sum c (fmap_extents fmap) c'
  unfolding log_file
  log_effect relpath c c' d d' v e =
      elim (Option-cases
        (famfs_log_file_creation env.sum c.logp fmap relpath a.mode a.uid a.gid a.size)) [
          | inl stop ↦ absurd (no_none (rw stop at e))
          | inr ((logp', rc), run) ↦
              ended c (record c { logp = logp' }) c' (rc_or rc d) d' refl refl
                (file_logged c.logp logp' relpath rc v run) (rw run at e)
        ]

  -- The file system is not part of the effect.
  from_fs :
      (c c' : Session P.State) (s : P.State)
      → Logged env.sum (record c { fs = s }) (fmap_extents fmap) c'
      → Logged env.sum c (fmap_extents fmap) c'
  from_fs c c' s l = record { same_lp = l.same_lp; same_built = l.same_built; log = l.log }

  map_effect :
      (relpath : List ℕ) (c c' : Session P.State) (made d : FdRc)
      → IsValid env.sum c.logp
      → map_file P env a fmap relpath c made ≡ some (c', d)
      → Logged env.sum c (fmap_extents fmap) c'
  unfolding map_file log_file after_map
  map_effect relpath c c' (error rc) d v e = ended c c c' (error rc) d refl refl (same_log refl) e
  map_effect relpath c c' (fd zero) d v e = ended c c c' (fd 0) d refl refl (same_log refl) e
  map_effect relpath c c' (fd (suc n)) d v e = elim (Bool-cases env.mock_kmod) [
    | inl mocked ↦ log_effect relpath c c' (fd (suc n)) d v (rw mocked at e)
    | inr real ↦ elim (Option-cases (famfs_v2_set_file_map P c.fs (suc n) a.size fmap)) [
      | inl stop ↦ absurd (no_none (rw (real, stop) at e))
      | inr (mapped, run) ↦
          let after = after_map P env (suc n) mapped in
          from_fs c c' after.0
            (log_effect relpath (record c { fs = after.0 }) c' after.1 d v (rw (real, run) at e))
    ]
  ]

  create_effect :
      (p : RelPath) (c c' : Session P.State) (d : FdRc)
      → IsValid env.sum c.logp
      → create_file P env a fmap c p ≡ some (c', d)
      → Logged env.sum c (fmap_extents fmap) c'
  unfolding create_file
  create_effect null c c' d v e = ended c c c' (error failed) d refl refl (same_log refl) e
  create_effect (pointer none) c c' d v e = absurd (no_none e)
  create_effect (pointer (some relpath)) c c' d v e =
      let made = famfs_file_create_stub P c.fs a.filename a.mode a.uid a.gid false in
      from_fs c c' made.0 (map_effect relpath (record c { fs = made.0 }) c' made.1 d v e)

  pub place_effect :
      (target : List ℕ) (c c' : Session P.State) (d : FdRc)
      → IsValid env.sum c.logp
      → place_file P env a target c (returned ok (some fmap)) ≡ some (c', d)
      → Logged env.sum c (fmap_extents fmap) c'
  unfolding place_file
  place_effect target c c' d v e = elim (Bool-cases (fmap_nextents fmap == 1)) [
    | inr bad ↦ absurd (no_none (rw bad at e))
    | inl one ↦
        create_effect (famfs_relpath_from_fullpath (take 4095 env.mpt) target) c c' d v
          (rw one at e)
  ]

-- Without a map, nothing is written.
module _ (P : Posix) (env : Setup) (a : MkfileArgs) where
  unplaced :
      (c0 c c' : Session P.State) (d d' : FdRc)
      → c0 ≡ c
      → Path (Option (Session P.State × FdRc)) (some (c0, d)) (some (c', d'))
      → c' ≡ c
  unplaced c0 c c' d d' q e =
      sym (ap (λ (t : Session P.State × FdRc). t.0) (some-injective (c0, d) (c', d') e)) ∙ q

  pub place_refused :
      (target : List ℕ) (check : ParamCheck) (c c' : Session P.State) (d : FdRc)
      → place_file P env a target c (refused check) ≡ some (c', d)
      → c' ≡ c
  unfolding place_file
  place_refused target check c c' d e = unplaced c c c' (error failed) d refl e

  pub place_nothing :
      (target : List ℕ) (rc : Rc) (c c' : Session P.State) (d : FdRc)
      → place_file P env a target c (returned rc none) ≡ some (c', d)
      → c' ≡ c
  unfolding place_file
  place_nothing target ok c c' d e = absurd (no_none e)
  place_nothing target failed c c' d e = unplaced c c c' (error failed) d refl e
  place_nothing target einval c c' d e = unplaced c c c' (error failed) d refl e
  place_nothing target enomem c c' d e = unplaced c c c' (error failed) d refl e
  place_nothing target enospc c c' d e = unplaced c c c' (error failed) d refl e
  place_nothing target erange c c' d e = unplaced c c c' (error failed) d refl e
  place_nothing target eexist c c' d e = unplaced c c c' (error failed) d refl e
  place_nothing target ebadf c c' d e = unplaced c c c' (error failed) d refl e
  place_nothing target eoverflow c c' d e = unplaced c c c' (error failed) d refl e
