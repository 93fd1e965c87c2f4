-- ===== src/Alloc/Build/Growth.antt =====
-- An appended entry (src/famfs_lib.c, src/famfs_alloc.c) adds its own extents and keeps the others.
use mathlib.Core.List.{append-nil, append_assoc}
use famfs.Prelude.{
  ℕ, zero, suc, ◌+◌, ◌<◌, ◌≡◌, refl, sym, true, ◌==◌, if◌then◌else◌, [], ◌++◌, arith,
}
use famfs.Meta.{LogPayload, LogEntry, FamfsLog, Checksum}
use famfs.Log.{entry_errors, famfs_validate_log_entry}
use famfs.Log.Inv.{Appended}
use famfs.Alloc.Build.Extents.{log_extents, payload_extents}
use famfs.Alloc.Build.Laws.{all_extents}

module _ (sum : Checksum) where
  validate_clean :
      (le : LogEntry) (i : ℕ)
      → entry_errors sum le i ≡ 0
      → (famfs_validate_log_entry sum le le i == 0) ≡ true
  unfolding famfs_validate_log_entry
  validate_clean le i h = ground arith

  -- The entries that are in use stay the same, and one more, number n, is valid.
  log_extents_grow :
      (f g : ℕ → LogEntry) (n left i : ℕ)
      → n ≡ i + left
      → ((j : ℕ) → j < n → g j ≡ f j)
      → entry_errors sum (g n) n ≡ 0
      → log_extents sum g (suc left) i ≡ log_extents sum f left i ++ payload_extents (g n).payload
  unfolding log_extents
  log_extents_grow f g n zero i at same clean =
      let here : i ≡ n = omega (arith, at) in
      rw (here, validate_clean (g n) n clean) (append-nil (payload_extents (g n).payload))
  log_extents_grow f g n (suc left) i at same clean =
      let rest = log_extents_grow f g n left (i + 1) (omega (arith, at)) same clean in
      rw (same i (omega (arith, at)), rest)
        (sym (
          append_assoc
            (if famfs_validate_log_entry sum (f i) (f i) i == 0
              then payload_extents (f i).payload
              else [])
            (log_extents sum f left (i + 1)) (payload_extents (g n).payload)))

  pub all_extents-Appended :
      (logp logp' : FamfsLog) (e : LogPayload)
      → Appended sum logp e logp'
      → all_extents sum logp' ≡ all_extents sum logp ++ payload_extents e
  all_extents-Appended logp logp' e a =
      let next : logp'.next_index ≡ suc logp.next_index = omega (arith, a.next) in
      let clean = a.valid.sound logp.next_index (omega (arith, a.next)) in
      let grow =
        log_extents_grow logp.entries logp'.entries logp.next_index logp.next_index 0 (omega arith)
          a.kept clean in
      rw (next, a.same_len, grow, a.written) refl
