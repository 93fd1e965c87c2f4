-- ===== src/Daxdev.antt =====
-- `famfs_daxdev_table_add` of src/famfs_dax.c: the table of the daxdevs that the log adds.
pub mod Laws
use famfs.Prelude.{
  ℕ, zero, suc, ◌+◌, ◌-◌, ◌^◌, Bool, true, false, not, ◌||◌, ◌==◌, ltb, leb, if◌then◌else◌, List,
  [], store,
}
use famfs.Prelude.Lists.{list_eq}
use famfs.Meta.{
  Rc, ok, einval, enospc, erange, eexist, LogAddDaxdev, LogPayload, add_daxdev, LogEntry,
}
use famfs.Super.{Daxdev}

-- The table and `*ndevs`. An `int` is its bit pattern below 2 ^ 32.
pub record Table : Type 0 where
  pub slots : ℕ → Daxdev
  pub ndevs : ℕ

abbrev pub is_negative_int : ℕ → Bool
is_negative_int n = leb (2 ^ 31) n

-- Whether one of the `left` slots from i on has the uuid.
pub has_uuid : (ℕ → Daxdev) → List ℕ → ℕ → ℕ → Bool
has_uuid table uuid zero i = false
has_uuid table uuid (suc left) i =
    list_eq (table i).dd_uuid uuid || has_uuid table uuid left (i + 1)

pub append_daxdev : Table → LogAddDaxdev → Table
append_daxdev t dd = record {
  slots =
      store t.slots t.ndevs (record { dd_size = dd.dd_size; dd_uuid = dd.dd_uuid; dd_daxdev = [] });
  ndevs = t.ndevs + 1;
}

pub add_entry : Table → ℕ → LogPayload → Table × Rc
add_entry t max (add_daxdev dd) =
    if is_negative_int max || leb max t.ndevs
    then (t, enospc)
    else if not (dd.dd_index == t.ndevs)
    then (t, erange)
    else if has_uuid t.slots dd.dd_uuid t.ndevs 0
    then (t, eexist)
    else (append_daxdev t dd, ok)
add_entry t max e = (t, einval)

-- `null` says that one of the pointers is null.
pub famfs_daxdev_table_add : Bool → Table → ℕ → LogEntry → Table × Rc
famfs_daxdev_table_add null t max le =
    if null || is_negative_int t.ndevs then (t, einval) else add_entry t max le.payload
