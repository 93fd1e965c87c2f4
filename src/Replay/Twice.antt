-- ===== src/Replay/Twice.antt =====
-- The log played to its end without an error has its files and directories, and playing it again (by
-- `__famfs_logplay` of src/famfs_lib.c) creates nothing.
use mathlib.Core.Option.{some-injective}
use mathlib.Core.Path.{subst}
use famfs.Prelude.{
  ℕ, zero, suc, ◌+◌, ◌≤◌, ◌<◌, ◌≡◌, inl, inr, refl, ◌∙◌, ap, Bool, true, false, ◌||◌, not, ◌==◌,
  Option, some, arith, Bool-cases, Option-cases,
}
use famfs.Meta.{LogEntry, FamfsLog, Checksum, no_stats}
use famfs.Log.{famfs_validate_log_header, famfs_validate_log_entry}
use famfs.Host.{Posix}
use famfs.Host.Laws.{Keeps, Keeps-refl, Keeps-trans, IsPlain}
use famfs.Files.Mkfile.Effects.{no_none}
use famfs.Files.Mkdir.{is_ok}
use famfs.Replay.{
  Play, PlayArgs, PlayRc, refused, errors, is_nosuper, play_entry, counted_entry, play_entries,
  play_result, __famfs_logplay,
}
use famfs.Replay.Entry.{errs, Canonical, Played, Played-Keeps, Clean, play_entry-Clean}
use famfs.Replay.Same.{Same, Same-refl, play_entry-Same}

module _ (P : Posix) (a : PlayArgs) (sum : Checksum) (entries : ℕ → LogEntry) where
  abbrev pub valid_at : ℕ → Bool
  valid_at i = famfs_validate_log_entry sum (entries i) (entries i) i == 0

  -- What a play of `left` entries from i on, to its end, leaves.
  pub record Ran (left i : ℕ) (p p' : Play P.State) : Type 0 where
    pub grows : errs p ≤ errs p'
    pub valid : (j : ℕ) → i ≤ j → j < i + left → valid_at j ≡ true
    pub keeps : errs p' ≡ errs p → Keeps P p.fs p'.fs
    pub played :
        errs p' ≡ errs p → (j : ℕ) → i ≤ j → j < i + left → Played P a p'.fs (entries j).payload

  not_true :
      {p p' : Play P.State}
      → Path (Option (Play P.State × Bool)) (some (p, false)) (some (p', true))
      → ⊥
  not_true e = cc

  ended :
      {left i : ℕ} (p p' : Play P.State) (b : Bool)
      → Path (Option (Play P.State × Bool)) (some (p, b)) (some (p', true))
      → Ran left i p p
      → Ran left i p p'
  ended {left} {i} p p' b e r =
      subst (λ (t : Play P.State × Bool). Ran left i p t.0) (some-injective (p, b) (p', true) e) r

  -- One entry, and the others after it.
  joined :
      (left i : ℕ) (p p1 p' : Play P.State)
      → valid_at i ≡ true
      → Clean P a (λ s. Played P a s (entries i).payload) (counted_entry P a p) p1
      → Ran left (i + 1) p1 p'
      → Ran (suc left) i p p'
  unfolding counted_entry
  joined left i p p1 p' good first rest = record {
    grows = omega (arith, first.grows, rest.grows);
    valid = λ j lo hi. elim (Bool-cases (j == i)) [
      | inl here ↦ let at : j ≡ i = ground arith in rw at good
      | inr there ↦ rest.valid j (ground (arith, lo)) (omega (arith, hi))
    ];
    keeps = λ z.
        let e1 : errs p1 ≡ errs p = omega (arith, z, first.grows, rest.grows) in
        Keeps-trans P p.fs p1.fs p'.fs (first.clean e1).0 (rest.keeps (omega (arith, z, e1)));
    played = λ z j lo hi.
        let e1 : errs p1 ≡ errs p = omega (arith, z, first.grows, rest.grows) in
        let e2 : errs p' ≡ errs p1 = omega (arith, z, e1) in
        elim (Bool-cases (j == i)) [
          | inl here ↦
              let at : j ≡ i = ground arith in
              rw at (
                Played-Keeps P a p1.fs p'.fs (entries i).payload (rest.keeps e2) (first.clean e1).1)
          | inr there ↦ rest.played e2 j (ground (arith, lo)) (omega (arith, hi))
        ];
  }

  -- While the `left` entries from i on are played, each is canonical when its turn comes.
  unfoldable pub CanonicalRun : ℕ → ℕ → Play P.State → Type 0
  CanonicalRun zero i p = Unit {0}
  CanonicalRun (suc left) i p =
      Canonical P a p.fs (entries i).payload
      × ((p1 : Play P.State)
          → play_entry P a (entries i).payload (counted_entry P a p) ≡ some p1
          → CanonicalRun left (i + 1) p1)

  module _ (wet : a.dry_run ≡ false) where
    pub entries-Ran :
        (plain : IsPlain P) (left i : ℕ) (p p' : Play P.State)
        → CanonicalRun left i p
        → play_entries P a sum entries left i p ≡ some (p', true)
        → Ran left i p p'
    unfolding play_entries counted_entry CanonicalRun
    entries-Ran plain zero i p p' canonical e = ended p p' true e (record {
      grows = omega arith;
      valid = λ j lo hi. absurd (omega (arith, lo, hi));
      keeps = λ z. Keeps-refl P p.fs;
      played = λ z j lo hi. absurd (omega (arith, lo, hi));
    })
    entries-Ran plain (suc left) i p p' canonical e = elim (Bool-cases (valid_at i)) [
      | inr bad ↦ absurd (not_true (rw (play_entries, bad) at e))
      | inl good ↦ elim (Option-cases (play_entry P a (entries i).payload (counted_entry P a p))) [
        | inl stop ↦ absurd (no_none (rw (play_entries, good, stop) at e))
        | inr (p1, run) ↦
            let first =
              play_entry-Clean P a plain (entries i).payload (counted_entry P a p) p1 wet
                canonical.0 run in
            let rest =
              entries-Ran plain left (i + 1) p1 p' (canonical.1 p1 run)
                (rw (play_entries, good, run) at e) in
            joined left i p p1 p' good first rest
      ]
    ]

    -- Entries that are there are played without a change.
    pub entries-Same :
        (left i : ℕ) (p : Play P.State)
        → ((j : ℕ) → i ≤ j → j < i + left → valid_at j ≡ true)
        → ((j : ℕ) → i ≤ j → j < i + left → Played P a p.fs (entries j).payload)
        → ((j : ℕ) → i ≤ j → j < i + left → Canonical P a p.fs (entries j).payload)
        → (p' : Play P.State) × (play_entries P a sum entries left i p ≡ some (p', true))
          × Same P a p p'
    unfolding play_entries counted_entry
    entries-Same zero i p v h canonical = (p, refl, Same-refl P a p)
    entries-Same (suc left) i p v h canonical =
        let (p1, run, same) =
          play_entry-Same P a (entries i).payload (counted_entry P a p) wet
            (canonical i (omega arith) (omega arith)) (h i (omega arith) (omega arith)) in
        let (p2, more, again) =
          entries-Same left (i + 1) p1 (λ j lo hi. v j (omega (arith, lo)) (omega (arith, hi)))
            (λ j lo hi. rw (same.fs) (h j (omega (arith, lo)) (omega (arith, hi))))
            (λ j lo hi. rw (same.fs) (canonical j (omega (arith, lo)) (omega (arith, hi)))) in
        (
          p2,
          rw (play_entries, v i (omega arith) (omega arith), run) more,
          record {
            fs = again.fs ∙ same.fs;
            f_created = again.f_created ∙ same.f_created;
            d_created = again.d_created ∙ same.d_created;
            f_errs = again.f_errs ∙ same.f_errs;
            d_errs = again.d_errs ∙ same.d_errs;
            yaml_errs = again.yaml_errs ∙ same.yaml_errs;
          },
        )

module _ (P : Posix) (a : PlayArgs) (sum : Checksum) (logp : FamfsLog) where
  abbrev starting : P.State → Play P.State
  starting s = record { fs = s; ls = no_stats }

  abbrev stops : Bool
  stops = is_nosuper a.role || not (is_ok (famfs_validate_log_header sum logp))

  refused_not :
      {p p' : Play P.State} {n : ℕ}
      → Path (Option (Play P.State × PlayRc)) (some (p, refused)) (some (p', errors n))
      → ⊥
  refused_not e = cc

  result_lem :
      (p0 p : Play P.State) (b : Bool) (n : ℕ)
      → some (play_result P a (p0, b)) ≡ some (p, errors n)
      → (b ≡ true) × (p0 ≡ p)
  unfolding play_result
  result_lem p0 p false n e = absurd (refused_not e)
  result_lem p0 p true n e = (
    refl,
    ap (λ (t : Play P.State × PlayRc). t.0)
        (some-injective (play_result P a (p0, true)) (p, errors n) e),
  )

  ran_lem :
      (s : P.State) (p : Play P.State) (n : ℕ)
      → __famfs_logplay P a sum logp s ≡ some (p, errors n)
      → (stops ≡ false)
        × (play_entries P a sum logp.entries logp.next_index 0 (starting s) ≡ some (p, true))
  unfolding __famfs_logplay
  ran_lem s p n e = elim (Bool-cases stops) [
    | inl stop ↦ absurd (refused_not (rw stop at e))
    | inr go ↦
        elim (Option-cases (play_entries P a sum logp.entries logp.next_index 0 (starting s))) [
          | inl failed ↦ absurd (no_none (rw (go, failed) at e))
          | inr ((p0, b), run) ↦
              let (whole, same) = result_lem p0 p b n (rw (go, run) at e) in
              (go, run ∙ ap (λ (t : Play P.State × Bool). some t) (rw (whole, same) refl))
        ]
  ]

  ran_back :
      (s : P.State) (p : Play P.State)
      → stops ≡ false
      → play_entries P a sum logp.entries logp.next_index 0 (starting s) ≡ some (p, true)
      → p.ls.f_errs + p.ls.d_errs + p.ls.yaml_errs ≡ 0
      → __famfs_logplay P a sum logp s ≡ some (p, errors 0)
  unfolding __famfs_logplay play_result
  ran_back s p go run none_ = rw (go, run, none_) refl

  -- Without dry_run, on a host whose calls do what POSIX says: if realpath leaves the path of each entry in its buffer,
  -- when the entry is played and after the play, and the log was played to its end with no error
  -- counted, then playing it again returns 0, leaves the host as it is and creates no file and no
  -- directory.
  pub play_twice :
      (plain : IsPlain P) (s : P.State) (p : Play P.State) (n : ℕ)
      → a.dry_run ≡ false
      → CanonicalRun P a sum logp.entries logp.next_index 0 (starting s)
      → ((j : ℕ) → j < logp.next_index → Canonical P a p.fs (logp.entries j).payload)
      → __famfs_logplay P a sum logp s ≡ some (p, errors n)
      → p.ls.f_errs + p.ls.d_errs ≡ 0
      → (p2 : Play P.State) × (__famfs_logplay P a sum logp p.fs ≡ some (p2, errors 0))
        × (p2.fs ≡ p.fs)
        × (p2.ls.f_created ≡ 0)
        × (p2.ls.d_created ≡ 0)
  play_twice plain s p n wet canonical settled run clean =
      let (ok_, ran) = ran_lem s p n run in
      let r =
        entries-Ran P a sum logp.entries wet plain logp.next_index 0 (starting s) p canonical ran in
      let whole : errs p ≡ errs (starting s) = clean in
      let (p2, again, same) =
        entries-Same P a sum logp.entries wet logp.next_index 0 (starting p.fs) r.valid
          (r.played whole) (λ j lo hi. settled j (omega (arith, hi))) in
      (
        p2,
        ran_back p.fs p2 ok_ again (omega (arith, same.f_errs, same.d_errs, same.yaml_errs)),
        same.fs,
        same.f_created,
        same.d_created,
      )
