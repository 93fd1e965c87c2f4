-- ===== src/Log/Inv.antt =====
-- The invariant of the log, and that the functions of src/famfs_lib.c which append keep it.
use famfs.Prelude.{ℕ, ◌+◌, ◌-◌, ◌^◌, ◌≤◌, ◌<◌, ◌≡◌, refl, false, ◌==◌, some, arith}
use famfs.Meta.{LogPayload, LogEntry, FamfsLog, Checksum}
use famfs.Log.{
  log_slots_available, famfs_log_full, famfs_gen_log_entry_crc, entry_errors, famfs_append_log,
}

-- Sequence numbers and indices are in step, the entries fit the log, and each entry in use passes
-- the checks of its index.
pub record IsValid (sum : Checksum) (logp : FamfsLog) : Type 0 where
  pub in_step : logp.next_seqnum ≡ logp.next_index
  pub room : logp.next_index ≤ logp.last_index + 1
  pub bounded : logp.last_index < 2 ^ 64 - 1
  pub sound : (i : ℕ) → i < logp.next_index → entry_errors sum (logp.entries i) i ≡ 0

-- What a successful append of `e` to `logp` leaves.
pub record Appended (sum : Checksum) (logp : FamfsLog) (e : LogPayload) (logp' : FamfsLog)
    : Type 0 where
  pub valid : IsValid sum logp'
  pub next : logp'.next_index ≡ logp.next_index + 1
  pub written : (logp'.entries logp.next_index).payload ≡ e
  pub kept : (i : ℕ) → i < logp.next_index → logp'.entries i ≡ logp.entries i
  pub same_last : logp'.last_index ≡ logp.last_index
  pub same_len : logp'.log_len ≡ logp.log_len

module _ (sum : Checksum) (logp : FamfsLog) (e : LogPayload) (v : IsValid sum logp) where
  abbrev signed : LogEntry
  signed = record {
    seqnum = logp.next_seqnum;
    payload = e;
    crc = famfs_gen_log_entry_crc sum (record { seqnum = logp.next_seqnum; payload = e; crc = 0 });
  }

  signed_errors : entry_errors sum signed logp.next_index ≡ 0
  unfolding entry_errors famfs_gen_log_entry_crc
  signed_errors = ground (arith, v.in_step)

  pub append_log-Appended :
      famfs_log_full logp ≡ false → Appended sum logp e (famfs_append_log sum logp e).0
  unfolding famfs_append_log famfs_log_full
  append_log-Appended open_ = record {
    valid = record {
      in_step = ground (arith, v.in_step, v.room, v.bounded);
      room = ground (arith, v.in_step, v.room, v.bounded);
      bounded = v.bounded;
      sound = λ i lt. ground (arith, signed_errors, v.sound i, v.in_step, v.room, v.bounded);
    };
    next = ground (arith, v.room, v.bounded);
    written = ground arith;
    kept = λ i lt. ground arith;
    same_last = refl;
    same_len = refl;
  }

module _ (sum : Checksum) (logp : FamfsLog) (v : IsValid sum logp) where
  -- In a valid log the assertion of `log_slots_available` holds if the log has fewer than 2 ^ 63
  -- slots: it returns the number of free slots, which is zero exactly when the log is full.
  pub log_slots_available_lem :
      logp.last_index + 1 < 2 ^ 63
      → (n : ℕ) × (log_slots_available logp ≡ some n)
        × (n + logp.next_index ≡ logp.last_index + 1)
        × (famfs_log_full logp ≡ (n == 0))
  unfolding log_slots_available famfs_log_full
  log_slots_available_lem small = (
    logp.last_index + 1 - logp.next_index,
    ground (arith, v.room, v.bounded),
    omega (arith, v.room),
    ground (arith, v.room),
  )
