-- ===== src/Files/Session/Laws.antt =====
-- No step of a session (src/famfs_lib.c) gives a page to two owners.
use mathlib.Core.Path.{subst}
use famfs.Prelude.{ℕ, ◌≤◌, ◌+◌, ◌≡◌, inl, inr, refl, ◌∙◌, ap, sym, true, some, List, [], arith}
use famfs.Prelude.Lists.{length, All}
use famfs.Meta.{SimpleExtent, LogFmap, Checksum, alloc_unit_2m}
use famfs.Log.{famfs_add_daxdev}
use famfs.Log.View.{Op, daxdev_addition, payload_of, exec_cases}
use famfs.Alloc.Extent.{pages}
use famfs.Alloc.File.{LockedLog}
use famfs.Alloc.Taken.{IsTaken, IsUntouched}
use famfs.Alloc.Strided.{StridedResult}
use famfs.Alloc.Strided.Sound.{Sound, nothing_refused, nothing_returned, took}
use famfs.Alloc.Build.Owners.{owners, bit, bit_le, Fits}
use famfs.Alloc.Build.Extents.{fmap_extents, payload_extents}
use famfs.Alloc.Build.Laws.{all_extents}
use famfs.Alloc.Choice.Laws.{choose_alloc-Sound}
use famfs.Host.{Posix}
use famfs.Files.Create.{FdRc}
use famfs.Files.Mkfile.{Session, Setup, MkfileArgs, __famfs_mkfile, place_file}
use famfs.Files.Mkfile.Effects.{
  Written, same_log, one_more, Logged, place_effect, place_refused, place_nothing,
}
use famfs.Files.Mkfile.Paths.{mkfile_paths}
use famfs.Files.Mkdir.Effects.{mkdir_effect}
use famfs.Files.Session.{
  StepFits, AllFit, IsModest, Step, made_file, made_dir, added_daxdev, reopened, Reach, start,
  later,
}
use famfs.Files.Session.Space.{
  IsSparse, IsSized, IsCovered, ensure_bitmap-IsCovered, ensure_bitmap-IsStripable,
  covered-IsAskable, owners-Appended, appended-IsSparse,
}

-- What holds between the steps of a session.
pub record IsConsistent (sum : Checksum) (State : Type 0) (c : Session State) : Type 0 where
  pub sparse : IsSparse sum c.logp
  pub sized : IsSized c.lp
  pub covered : c.built ≡ true → IsCovered sum c.logp c.lp

-- Room for the extents `es`: they can be logged.
pub record IsRoom (sum : Checksum) {State : Type 0} (c : Session State) (es : List SimpleExtent)
    : Type 0 where
  pub fit : All (Fits alloc_unit_2m) es
  pub few : length es ≤ 16
  pub single :
      (j : ℕ) → owners alloc_unit_2m (all_extents sum c.logp) j + owners alloc_unit_2m es j ≤ 1
  pub owned :
      c.built ≡ true
      → (j : ℕ)
      → owners alloc_unit_2m (all_extents sum c.logp) j + owners alloc_unit_2m es j
        ≤ bit c.lp.bitmap j

module _ (sum : Checksum) (State : Type 0) where
  -- Where there is room, the entry may be written or not.
  pub Logged-IsConsistent :
      (c c' : Session State) (es : List SimpleExtent)
      → IsConsistent sum State c
      → IsRoom sum c es
      → Logged sum c es c'
      → IsConsistent sum State c'
  Logged-IsConsistent c c' es h r l = record {
    sparse = sparse l.log;
    sized = rw (l.same_lp) h.sized;
    covered = λ b. rw (l.same_lp) (covered l.log (rw (l.same_built) at b));
  }
    where
      sparse : Written sum c.logp es c'.logp → IsSparse sum c'.logp
      sparse (same_log e) = rw e h.sparse
      sparse (one_more e q a) =
          appended-IsSparse sum c.logp c'.logp e h.sparse a (rw q r.fit) (rw q r.few)
            (rw q r.single)

      covered : Written sum c.logp es c'.logp → c.built ≡ true → IsCovered sum c'.logp c.lp
      covered (same_log e) b = rw e (h.covered b)
      covered (one_more e q a) b = record {
        bytes = (h.covered b).bytes;
        nbits = (h.covered b).nbits;
        owned = λ j.
            let enough : owners alloc_unit_2m (all_extents sum c.logp) j
                  + owners alloc_unit_2m (payload_extents e) j
                ≤ bit c.lp.bitmap j =
              rw q (r.owned b j) in
            omega (arith, owners-Appended sum c.logp c'.logp e h.sparse a j);
      }

  no_extents-IsRoom : (c : Session State) → IsConsistent sum State c → IsRoom sum c []
  unfolding owners
  no_extents-IsRoom c h = record {
    fit = tt;
    few = omega arith;
    single = λ j. omega (arith, h.sparse.single j);
    owned = λ b j. omega (arith, (h.covered b).owned j);
  }

  pub no_extents-IsConsistent :
      (c c' : Session State)
      → IsConsistent sum State c
      → Logged sum c [] c'
      → IsConsistent sum State c'
  no_extents-IsConsistent c c' h l = Logged-IsConsistent c c' [] h (no_extents-IsRoom c h) l

  -- An allocation on a bitmap that has what the log gives out.
  untouched-IsConsistent :
      (c : Session State) (lp1 lp2 : LockedLog)
      → IsSparse sum c.logp
      → IsCovered sum c.logp lp1
      → IsSized lp1
      → IsUntouched lp1 lp2
      → IsConsistent sum State (record c { lp = lp2; built = true })
  untouched-IsConsistent c lp1 lp2 sp cov z u = record {
    sparse = sp;
    sized = record {
      unit = u.sizes.unit ∙ z.unit;
      some_device = rw (u.sizes.devsize) z.some_device;
      devsize_word = rw (u.sizes.devsize) z.devsize_word;
    };
    covered = λ b. record {
      bytes = u.bytes;
      nbits = u.sizes.nbits ∙ cov.nbits ∙ ap (pages alloc_unit_2m) (sym u.sizes.devsize);
      owned = λ j. ground (arith, u.bits j, cov.owned j);
    };
  }

  taken-IsConsistent :
      (c : Session State) (lp1 lp2 : LockedLog) (fm : LogFmap)
      → IsSparse sum c.logp
      → IsCovered sum c.logp lp1
      → IsSized lp1
      → IsTaken lp1 lp2 fm
      → let c2 : Session State = record c { lp = lp2; built = true } in
        IsConsistent sum State c2 × IsRoom sum c2 (fmap_extents fm)
  taken-IsConsistent c lp1 lp2 fm sp cov z t =
      let below = λ (j : ℕ).
        let b = t.bits j in
        let o = cov.owned j in
        let le : owners alloc_unit_2m (all_extents sum c.logp) j
              + owners alloc_unit_2m (fmap_extents fm) j
            ≤ bit lp2.bitmap j =
          omega arith in
        le in
      (
        record {
          sparse = sp;
          sized = record {
            unit = t.sizes.unit ∙ z.unit;
            some_device = rw (t.sizes.devsize) z.some_device;
            devsize_word = rw (t.sizes.devsize) z.devsize_word;
          };
          covered = λ b. record {
            bytes = t.bytes;
            nbits = t.sizes.nbits ∙ cov.nbits ∙ ap (pages alloc_unit_2m) (sym t.sizes.devsize);
            owned = λ j. omega (arith, below j);
          };
        },
        record {
          fit = t.fit;
          few = t.few;
          single = λ j. omega (arith, below j, bit_le lp2.bitmap j);
          owned = λ b j. below j;
        },
      )

no_extents-payload :
    (size : ℕ) (uuid : List ℕ) (index : ℕ)
    → payload_extents (payload_of (daxdev_addition size uuid index)) ≡ []
unfolding payload_extents
no_extents-payload size uuid index = refl

module _ (P : Posix) (env : Setup) where
  placed-IsConsistent :
      (a : MkfileArgs) (target : List ℕ) (c c' : Session P.State) (lp1 lp2 : LockedLog)
      (r : StridedResult) (d : FdRc)
      → IsSparse env.sum c.logp
      → IsCovered env.sum c.logp lp1
      → IsSized lp1
      → Sound lp1 lp2 r
      → place_file P env a target (record c { lp = lp2; built = true }) r ≡ some (c', d)
      → IsConsistent env.sum P.State c'
  placed-IsConsistent a target c c' lp1 lp2 _ d sp cov z (nothing_refused check u) e =
      subst (λ t. IsConsistent env.sum P.State t)
        (sym (place_refused P env a target check (record c { lp = lp2; built = true }) c' d e))
        (untouched-IsConsistent env.sum P.State c lp1 lp2 sp cov z u)
  placed-IsConsistent a target c c' lp1 lp2 _ d sp cov z (nothing_returned rc u) e =
      subst (λ t. IsConsistent env.sum P.State t)
        (sym (place_nothing P env a target rc (record c { lp = lp2; built = true }) c' d e))
        (untouched-IsConsistent env.sum P.State c lp1 lp2 sp cov z u)
  placed-IsConsistent a target c c' lp1 lp2 _ d sp cov z (took fm t) e =
      let c2 : Session P.State = record c { lp = lp2; built = true } in
      let (consistent, room) = taken-IsConsistent env.sum P.State c lp1 lp2 fm sp cov z t in
      Logged-IsConsistent env.sum P.State c2 c' (fmap_extents fm) consistent room
        (place_effect P env a fm target c2 c' d sp.valid e)

  mkfile-IsConsistent :
      (a : MkfileArgs) (c c' : Session P.State) (d : FdRc)
      → IsConsistent env.sum P.State c
      → IsModest c.lp a.size
      → __famfs_mkfile P env a c ≡ some (c', d)
      → IsConsistent env.sum P.State c'
  mkfile-IsConsistent a c c' d h m e =
      let (pos, way) = mkfile_paths P env a c c' d e in
      elim way [
        | inl u ↦
            no_extents-IsConsistent env.sum P.State c c' h
              (record { same_lp = u.same_lp; same_built = u.same_built; log = same_log u.same_log })
        | inr al ↦
            let (cov, z) =
              ensure_bitmap-IsCovered env.sum c.logp c.lp h.sparse h.sized c.built al.lp1 h.covered
                al.ensured in
            placed-IsConsistent a al.target c c' al.lp1 al.lp2 al.result d h.sparse cov z
              (choose_alloc-Sound env.mock_stripe env.rand al.lp1 a.size al.lp2 al.result
                (covered-IsAskable env.sum c.logp al.lp1 h.sparse z a.size cov pos m.size_word)
                (ensure_bitmap-IsStripable env.sum c.logp c.lp a.size c.built al.lp1 m.stripable
                  al.ensured)
                al.chosen)
              al.placed
      ]

  -- A step of a session keeps the invariant: the log is valid and its extents lie on pages, no page has
  -- two owners, and the bitmap, if it was built, has the size of the device and every owned page. A file
  -- that the step makes has less than 2 ^ 51 bytes and, where it is striped, at most 16 buckets and
  -- sizes that fit their words. The bitmap of the model has no end: a step in
  -- which the code would reach behind its own has no meaning in C, and nothing is said of it there.
  pub Step-IsConsistent :
      (c c' : Session P.State)
      → IsConsistent env.sum P.State c
      → (s : Step P env c c') → StepFits P env c c' s
      → IsConsistent env.sum P.State c'
  Step-IsConsistent _ _ h (made_file a c c' d e) m = mkfile-IsConsistent a c c' d h m e
  Step-IsConsistent _ _ h (made_dir a path c c' rc e) fits =
      no_extents-IsConsistent env.sum P.State c c' h
        (mkdir_effect P env a path c c' rc h.sparse.valid e)
  Step-IsConsistent _ _ h (added_daxdev c size uuid index) fits =
      let op : Op = daxdev_addition size uuid index in
      let out = famfs_add_daxdev env.sum c.logp size uuid index in
      no_extents-IsConsistent env.sum P.State c (record c { logp = out.0 }) h
        (record {
          same_lp = refl;
          same_built = refl;
          log = elim (exec_cases env.sum c.logp out.0 op out.1 h.sparse.valid refl) [
            | inl same ↦ same_log same
            | inr more ↦ one_more (payload_of op) (no_extents-payload size uuid index) more
          ];
        })
  Step-IsConsistent _ _ h (reopened c s p) fits = record {
    sparse = h.sparse;
    sized = record {
      unit = h.sized.unit;
      some_device = h.sized.some_device;
      devsize_word = h.sized.devsize_word;
    };
    covered = λ b. absurd (cc);
  }

  pub Reach-IsConsistent :
      (c c' : Session P.State)
      → IsConsistent env.sum P.State c
      → (r : Reach P env c c') → AllFit P env c c' r
      → IsConsistent env.sum P.State c'
  Reach-IsConsistent c _ h start fits = h
  Reach-IsConsistent c _ h (later c1 c2 r s) (fits, fit) =
      Step-IsConsistent c1 c2 (Reach-IsConsistent c c1 h r fits) s fit
