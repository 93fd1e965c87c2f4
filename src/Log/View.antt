-- ===== src/Log/View.antt =====
-- The log as a bounded journal: the list of the payloads appended so far. The functions of
-- src/famfs_lib.c that append refine one operation on that list.
use mathlib.Core.Option.{some-injective}
use mathlib.Core.Path.{subst}
use famfs.Prelude.{
  ◌∙◌, ◌⊎◌, ℕ, zero, suc, ◌+◌, ◌≤◌, ◌<◌, ◌≡◌, refl, ap, sym, ◌↔◌, true, leb, if◌then◌else◌, Option,
  some, List, [], ◌∷◌, ◌++◌, arith, Bool-cases, inl, inr,
}
use famfs.Prelude.Lists.{length, length-append, take}
use famfs.Meta.{
  Rc, ok, enomem, LogFmap, LogPayload, file, mkdir, add_daxdev, LogEntry, FamfsLog, Checksum,
}
use famfs.Meta.Fmap.{fmap_nextents}
use famfs.Log.{
  famfs_log_full, famfs_append_log, famfs_log_file_creation, famfs_log_dir_creation,
  famfs_add_daxdev, no_leading_slash,
}
use famfs.Log.Inv.{IsValid, Appended, append_log-Appended}

pub history : (ℕ → LogEntry) → ℕ → List LogPayload
history entries zero = []
history entries (suc n) = history entries n ++ (entries n).payload ∷ []

abbrev pub contents : FamfsLog → List LogPayload
contents logp = history logp.entries logp.next_index

-- The specification: a list that takes at most `cap` payloads.
abbrev pub append_spec : ℕ → List LogPayload → LogPayload → List LogPayload × Rc
append_spec cap l e = if leb cap (length l) then (l, enomem) else (l ++ e ∷ [], ok)

pub length-history : (entries : ℕ → LogEntry) (n : ℕ) → length (history entries n) ≡ n
unfolding history
length-history entries zero = refl
length-history entries (suc n) =
    omega (
      arith,
      length-history entries n,
      length-append (history entries n) ((entries n).payload ∷ []),
    )

history_agree :
    (f g : ℕ → LogEntry) (n : ℕ) → ((i : ℕ) → i < n → f i ≡ g i) → history f n ≡ history g n
unfolding history
history_agree f g zero h = refl
history_agree f g (suc n) h =
    rw (history_agree f g n (λ i lt. h i (omega arith)), h n (omega arith))

pub contents-Appended :
    (sum : Checksum) (logp logp' : FamfsLog) (e : LogPayload)
    → Appended sum logp e logp'
    → contents logp' ≡ contents logp ++ e ∷ []
unfolding history
contents-Appended sum logp logp' e a =
    let next_suc : logp'.next_index ≡ suc logp.next_index = omega (arith, a.next) in
    rw (next_suc, a.written)
      (ap (λ h. h ++ e ∷ []) (history_agree logp'.entries logp.entries logp.next_index a.kept))

-- A call of one of the three functions that write the log.
pub data Op : Type 0 where
  file_creation : LogFmap → List ℕ → ℕ → ℕ → ℕ → ℕ → Op
  dir_creation : List ℕ → ℕ → ℕ → ℕ → Op
  daxdev_addition : ℕ → List ℕ → ℕ → Op

abbrev pub exec : Checksum → FamfsLog → Op → Option (FamfsLog × Rc)
exec sum logp (file_creation fmap path mode uid gid size) =
    famfs_log_file_creation sum logp fmap path mode uid gid size
exec sum logp (dir_creation path mode uid gid) = famfs_log_dir_creation sum logp path mode uid gid
exec sum logp (daxdev_addition size uuid index) = some (famfs_add_daxdev sum logp size uuid index)

-- The assertions that the functions make of their arguments.
abbrev pub IsLegal : Op → Type 0
IsLegal (file_creation fmap path mode uid gid size) =
    (leb 1 (fmap_nextents fmap) ≡ true) × (no_leading_slash path ≡ true)
IsLegal (dir_creation path mode uid gid) = no_leading_slash path ≡ true
IsLegal (daxdev_addition size uuid index) = Unit {0}

abbrev pub payload_of : Op → LogPayload
payload_of (file_creation fmap path mode uid gid size) = file (record {
  fm_size = size;
  fm_flags = 2;
  fm_uid = uid;
  fm_gid = gid;
  fm_mode = mode;
  fm_relpath = take 79 path;
  fm_fmap = fmap;
})
payload_of (dir_creation path mode uid gid) =
    mkdir (record { md_uid = uid; md_gid = gid; md_mode = mode; md_relpath = take 79 path })
payload_of (daxdev_addition size uuid index) =
    add_daxdev (record { dd_size = size; dd_uuid = uuid; dd_index = index })

append_or_full : Checksum → FamfsLog → LogPayload → FamfsLog × Rc
append_or_full sum logp e =
    if famfs_log_full logp then (logp, enomem) else famfs_append_log sum logp e

exec-append_or_full :
    (sum : Checksum) (logp : FamfsLog) (op : Op)
    → IsLegal op
    → exec sum logp op ≡ some (append_or_full sum logp (payload_of op))
unfolding append_or_full famfs_log_file_creation famfs_log_dir_creation famfs_add_daxdev
exec-append_or_full sum logp (file_creation fmap path mode uid gid size) h = ground arith
exec-append_or_full sum logp (dir_creation path mode uid gid) h = ground arith
exec-append_or_full sum logp (daxdev_addition size uuid index) h = ground arith

append_or_full-Appended :
    (sum : Checksum) (logp logp' : FamfsLog) (e : LogPayload) (rc : Rc)
    → IsValid sum logp
    → append_or_full sum logp e ≡ (logp', rc)
    → (logp' ≡ logp) ⊎ Appended sum logp e logp'
unfolding append_or_full
append_or_full-Appended sum logp logp' e rc v run = elim (Bool-cases (famfs_log_full logp)) [
  | inl full ↦ inl (sym (ap (λ (t : FamfsLog × Rc). t.0) (rw full at run)))
  | inr free ↦ inr (
      subst (λ l. Appended sum logp e l) (ap (λ (t : FamfsLog × Rc). t.0) (rw free at run))
        (append_log-Appended sum logp e v free))
]

exec-IsLegal :
    (sum : Checksum) (logp logp' : FamfsLog) (op : Op) (rc : Rc)
    → exec sum logp op ≡ some (logp', rc)
    → IsLegal op
unfolding famfs_log_file_creation famfs_log_dir_creation
exec-IsLegal sum logp logp' (file_creation fmap path mode uid gid size) rc e =
    (ground arith, ground arith)
exec-IsLegal sum logp logp' (dir_creation path mode uid gid) rc e = ground arith
exec-IsLegal sum logp logp' (daxdev_addition size uuid index) rc e = tt

-- A function that writes the log, if it returns, leaves the log as it was or with one payload more.
pub exec_cases :
    (sum : Checksum) (logp logp' : FamfsLog) (op : Op) (rc : Rc)
    → IsValid sum logp
    → exec sum logp op ≡ some (logp', rc)
    → (logp' ≡ logp) ⊎ Appended sum logp (payload_of op) logp'
exec_cases sum logp logp' op rc v e = append_or_full-Appended sum logp logp' (payload_of op) rc v (
    some-injective _ _
      (sym (exec-append_or_full sum logp op (exec-IsLegal sum logp logp' op rc e)) ∙ e))

append_spec_full :
    (cap : ℕ) (l : List LogPayload) (e : LogPayload)
    → cap ≤ length l
    → append_spec cap l e ≡ (l, enomem)
append_spec_full cap l e h = ground arith

append_spec_room :
    (cap : ℕ) (l : List LogPayload) (e : LogPayload)
    → length l < cap
    → append_spec cap l e ≡ (l ++ e ∷ [], ok)
append_spec_room cap l e h = ground arith

full_iff :
    (logp : FamfsLog) → (famfs_log_full logp ≡ true) ↔ (logp.last_index + 1 ≤ logp.next_index)
unfolding famfs_log_full
full_iff logp = ground arith

append_log_ok :
    (sum : Checksum) (logp : FamfsLog) (e : LogPayload) → (famfs_append_log sum logp e).1 ≡ ok
unfolding famfs_append_log
append_log_ok sum logp e = refl

append_or_full-view :
    (sum : Checksum) (logp : FamfsLog) (e : LogPayload)
    → IsValid sum logp
    → let (logp', rc) = append_or_full sum logp e in
      IsValid sum logp'
      × (logp'.last_index ≡ logp.last_index)
      × ((contents logp', rc) ≡ append_spec (logp.last_index + 1) (contents logp) e)
unfolding append_or_full
append_or_full-view sum logp e v = elim (Bool-cases (famfs_log_full logp)) [
  | inl full ↦
      let len = length-history logp.entries logp.next_index in
      let h : logp.last_index + 1 ≤ length (contents logp) =
        omega (arith, (full_iff logp).0 full) in
      rw full (v, refl, sym (append_spec_full (logp.last_index + 1) (contents logp) e h))
  | inr free ↦
      let a = append_log-Appended sum logp e v free in
      let len = length-history logp.entries logp.next_index in
      let h : length (contents logp) < logp.last_index + 1 =
        omega (arith, a.valid.room, a.next, a.same_last) in
      rw free (
        a.valid,
        a.same_last,
        rw (
          contents-Appended sum logp (famfs_append_log sum logp e).0 e a,
          append_log_ok,
          append_spec_room (logp.last_index + 1) (contents logp) e h,
        ),
      )
]

-- Each function that writes the log, on arguments that pass its assertions and a valid log,
-- returns; it leaves a valid log of the same capacity, whose payloads and status are those of the
-- bounded journal: one payload more, or the same list and -ENOMEM if the log is full.
pub exec_refines :
    (sum : Checksum) (logp : FamfsLog) (op : Op)
    → IsValid sum logp
    → IsLegal op
    → (logp' : FamfsLog) × (rc : Rc) × (exec sum logp op ≡ some (logp', rc))
      × IsValid sum logp'
      × (logp'.last_index ≡ logp.last_index)
      × ((contents logp', rc) ≡ append_spec (logp.last_index + 1) (contents logp) (payload_of op))
exec_refines sum logp op v h =
    let view = append_or_full-view sum logp (payload_of op) v in
    let result = append_or_full sum logp (payload_of op) in
    (result.0, result.1, exec-append_or_full sum logp op h, view.0, view.1, view.2)
