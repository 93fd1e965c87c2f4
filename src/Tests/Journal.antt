-- ===== src/Tests/Journal.antt =====
-- The log at small inputs.
use famfs.Prelude.{ℕ, ◌<◌, ◌^◌, ◌==◌, ◌+◌, ◌≡◌, refl, some, arith, [], ◌∷◌}
use famfs.Tests.Samples.{sums}
use famfs.Meta.{Rc, FamfsLog}
use famfs.Log.{log_slots_available, famfs_log_full, no_leading_slash}
use famfs.Log.Inv.{IsValid, log_slots_available_lem}
use famfs.Log.View.{
  contents, append_spec, Op, IsLegal, dir_creation, exec, payload_of, exec_refines,
}
use famfs.Super.{new_log}
use famfs.Super.Laws.{new_log-IsValid}

abbrev empty_log : FamfsLog
empty_log = new_log sums 0x800000

empty_log-IsValid : IsValid sums empty_log
empty_log-IsValid = new_log-IsValid sums 0x800000 (omega arith) (omega arith)

abbrev make_dir : Op
make_dir = dir_creation (b'd' ∷ []) 0o755 0 0

legal : IsLegal make_dir
unfolding no_leading_slash
legal = refl

exec_refines_example :
    (logp' : FamfsLog) × (rc : Rc) × (exec sums empty_log make_dir ≡ some (logp', rc))
    × IsValid sums logp'
    × (logp'.last_index ≡ empty_log.last_index)
    × ((contents logp', rc)
        ≡ append_spec (empty_log.last_index + 1) (contents empty_log) (payload_of make_dir))
exec_refines_example = exec_refines sums empty_log make_dir empty_log-IsValid legal

empty_log_small : empty_log.last_index + 1 < 2 ^ 63
unfolding new_log
empty_log_small = omega arith

log_slots_available_lem_example :
    (n : ℕ) × (log_slots_available empty_log ≡ some n)
    × (n + empty_log.next_index ≡ empty_log.last_index + 1)
    × (famfs_log_full empty_log ≡ (n == 0))
log_slots_available_lem_example =
    log_slots_available_lem sums empty_log empty_log-IsValid empty_log_small
