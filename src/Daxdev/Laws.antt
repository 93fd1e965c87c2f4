-- ===== src/Daxdev/Laws.antt =====
-- The daxdev table stays dense and without duplicates, and takes exactly the entries that keep it so.
use native.Mathlib.Decide.{ℕ_discrete}
use famfs.Prelude.{
  ℕ, zero, suc, ◌+◌, ◌^◌, ◌≤◌, ◌<◌, ◌≡◌, ◌≢◌, refl, ap, false, List, arith, Bool-cases, inl, inr,
  ◌⊎◌,
}
use famfs.Prelude.Lists.{list_eq, list_eq_iff}
use famfs.Meta.{Rc, ok, LogAddDaxdev, add_daxdev, LogEntry}
use famfs.Super.{Daxdev}
use famfs.Daxdev.{Table, has_uuid, append_daxdev, add_entry, famfs_daxdev_table_add}

-- The slots in use fit the table and have different uuids.
pub record IsTable (max : ℕ) (t : Table) : Type 0 where
  pub room : t.ndevs ≤ max
  pub max_int : max < 2 ^ 31
  pub distinct :
      (i j : ℕ) → i < t.ndevs → j < t.ndevs → (t.slots i).dd_uuid ≡ (t.slots j).dd_uuid → i ≡ j

has_uuid_false→ :
    (table : ℕ → Daxdev) (uuid : List ℕ) (left i : ℕ)
    → has_uuid table uuid left i ≡ false
    → (j : ℕ) → i ≤ j
    → j < i + left
    → (table j).dd_uuid ≢ uuid
unfolding has_uuid
has_uuid_false→ table uuid zero i h j lo hi = absurd (omega arith)
has_uuid_false→ table uuid (suc left) i h j lo hi = elim (ℕ_discrete i j) [
  | yes e ↦ λ same. ground (arith, list_eq_iff (table i).dd_uuid uuid)
  | no ne ↦ has_uuid_false→ table uuid left (i + 1) (ground arith) j (omega arith) (omega arith)
]

has_uuid_false← :
    (table : ℕ → Daxdev) (uuid : List ℕ) (left i : ℕ)
    → ((j : ℕ) → i ≤ j → j < i + left → (table j).dd_uuid ≢ uuid)
    → has_uuid table uuid left i ≡ false
unfolding has_uuid
has_uuid_false← table uuid zero i h = refl
has_uuid_false← table uuid (suc left) i h =
    let here = h i (omega arith) (omega arith) in
    let rest =
      has_uuid_false← table uuid left (i + 1) (λ j lo hi. h j (omega arith) (omega arith)) in
    elim (Bool-cases (list_eq (table i).dd_uuid uuid)) [
      | inl e ↦ absurd (here ((list_eq_iff _ _).0 e))
      | inr e ↦ rw e rest
    ]

Rc-ok_cases : (rc : Rc) → (rc ≡ ok) ⊎ (rc ≢ ok)
Rc-ok_cases ok = inl refl
Rc-ok_cases rc = inr (λ e. cc)

-- What an entry must satisfy to be taken.
pub record IsNext (t : Table) (max : ℕ) (dd : LogAddDaxdev) : Type 0 where
  pub free_slot : t.ndevs < max
  pub dense : dd.dd_index ≡ t.ndevs
  pub fresh : (j : ℕ) → j < t.ndevs → (t.slots j).dd_uuid ≢ dd.dd_uuid

module _ (t : Table) (max : ℕ) (dd : LogAddDaxdev) (v : IsTable max t) where
  taken→ : (add_entry t max (add_daxdev dd)).1 ≡ ok → IsNext t max dd
  unfolding add_entry
  taken→ e = record {
    free_slot = ground (arith, v.max_int);
    dense = ground arith;
    fresh = λ j hj.
        has_uuid_false→ t.slots dd.dd_uuid t.ndevs 0 (ground arith) j (omega arith) (omega arith);
  }

  taken← : IsNext t max dd → add_entry t max (add_daxdev dd) ≡ (append_daxdev t dd, ok)
  unfolding add_entry
  taken← n = ground (
    arith,
    n.free_slot,
    n.dense,
    v.max_int,
    has_uuid_false← t.slots dd.dd_uuid t.ndevs 0 (λ j lo hi. n.fresh j (omega arith)),
  )

  append-IsTable : IsNext t max dd → IsTable max (append_daxdev t dd)
  unfolding append_daxdev
  append-IsTable n = record {
    room = omega (arith, n.free_slot);
    max_int = v.max_int;
    distinct = λ i j hi hj e. ground (arith, n.fresh i, n.fresh j, v.distinct i j);
  }

  refused : (add_entry t max (add_daxdev dd)).1 ≢ ok → (add_entry t max (add_daxdev dd)).0 ≡ t
  unfolding add_entry
  refused h = ground arith

  entry_added :
      (le : LogEntry)
      → le.payload ≡ add_daxdev dd
      → famfs_daxdev_table_add false t max le ≡ add_entry t max (add_daxdev dd)
  unfolding famfs_daxdev_table_add
  entry_added le e = rw (← e) (ground (arith, v.room, v.max_int))

  -- On a table that is dense and without duplicates, an entry that adds a daxdev is taken exactly
  -- if there is a free slot, its index is the next slot and its uuid is new: then the next slot
  -- holds its size and uuid, and the table stays dense and without duplicates; else it is refused,
  -- and the table is unchanged.
  pub table_add_lem :
      (le : LogEntry)
      → le.payload ≡ add_daxdev dd
      → let (t', rc) = famfs_daxdev_table_add false t max le in
        IsNext t max dd × (rc ≡ ok) × (t' ≡ append_daxdev t dd) × IsTable max t'
        ⊎ (¬ IsNext t max dd) × (rc ≢ ok) × (t' ≡ t)
  table_add_lem le e =
      rw (entry_added le e) (elim (Rc-ok_cases (add_entry t max (add_daxdev dd)).1) [
        | inl h ↦ let n = taken→ h in rw (taken← n) (inl (n, refl, refl, append-IsTable n))
        | inr h ↦ inr (λ n. h (ap (λ r. r.1) (taken← n)), h, refused h)
      ])
