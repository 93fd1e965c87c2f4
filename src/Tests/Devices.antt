-- ===== src/Tests/Devices.antt =====
-- The superblock and the daxdev table at small inputs.
use famfs.Prelude.{
  ℕ, ◌^◌, ◌≡◌, ◌≢◌, ◌⊎◌, ◌↔◌, inr, refl, true, false, none, some, arith, List, [], ◌∷◌,
}
use famfs.Tests.Samples.{sums}
use famfs.Meta.{ok, FamfsLog, LogAddDaxdev, add_daxdev, LogEntry}
use famfs.Log.{famfs_validate_log_header}
use famfs.Log.Inv.{IsValid}
use famfs.Super.{
  Superblock, Daxdev, master, client, nosuper, good, famfs_check_super, famfs_get_role, famfs_mkfs,
  new_superblock, new_log,
}
use famfs.Super.Laws.{IsGood, check_super_iff, get_role_iff, mkfs_makes}
use famfs.Daxdev.{Table, append_daxdev, famfs_daxdev_table_add}
use famfs.Daxdev.Laws.{IsTable, IsNext, table_add_lem}

abbrev no_daxdev : Daxdev
no_daxdev = record { dd_size = 0; dd_uuid = []; dd_daxdev = [] }

abbrev blank : Superblock
blank = record {
  ts_magic = 0;
  ts_version = 0;
  ts_log_offset = 0;
  ts_log_len = 0;
  ts_alloc_unit = 0;
  ts_omf_ver_major = 0;
  ts_omf_ver_minor = 0;
  ts_uuid = [];
  ts_dev_uuid = [];
  ts_system_uuid = [];
  ts_crc = 0;
  ts_sb_flags = 0;
  ts_daxdev = no_daxdev;
}

abbrev my_uuid : List ℕ
my_uuid = 4 ∷ 2 ∷ []

abbrev formatted : Superblock
formatted = new_superblock sums [] blank 0x800000 (2 ^ 33) my_uuid (1 ∷ []) (2 ∷ [])

abbrev empty_log : FamfsLog
empty_log = new_log sums 0x800000

check_super_iff_example :
    (famfs_check_super sums (some formatted)
      ≡ (good, some (formatted.ts_log_offset, formatted.ts_log_len)))
    ↔ IsGood sums formatted
check_super_iff_example = check_super_iff sums formatted

get_role_iff_example :
    ((famfs_get_role sums (some my_uuid) formatted ≡ master)
      ↔ (IsGood sums formatted × (my_uuid ≡ formatted.ts_system_uuid)))
    × ((famfs_get_role sums (some my_uuid) formatted ≡ nosuper) ↔ (¬ IsGood sums formatted))
    × (famfs_get_role sums none formatted ≡ client)
get_role_iff_example = get_role_iff sums formatted my_uuid

mkfs_makes_example :
    let (rc, sb', logp') =
      famfs_mkfs sums [] blank empty_log 0x800000
        (2 ^ 33)
        true
        false
        (some my_uuid)
        (1 ∷ [])
        (2 ∷ []) in
    (rc ≡ ok)
    × (famfs_check_super sums (some sb') ≡ (good, some (0x200000, 0x800000)))
    × (famfs_get_role sums (some my_uuid) sb' ≡ master)
    × (famfs_validate_log_header sums logp' ≡ ok)
    × IsValid sums logp'
    × (logp'.next_index ≡ 0)
    × (sb'.ts_daxdev.dd_size ≡ 2 ^ 33)
mkfs_makes_example =
    mkfs_makes sums [] blank 0x800000 (2 ^ 33) my_uuid (1 ∷ []) (2 ∷ []) empty_log true (inr refl)
      (omega arith) (omega arith)

abbrev one_device : Table
one_device = record { slots = λ _. record no_daxdev { dd_uuid = 7 ∷ [] }; ndevs = 1 }

one_device-IsTable : IsTable 4 one_device
one_device-IsTable = record {
  room = omega arith;
  max_int = omega arith;
  distinct = λ i j hi hj e. omega arith;
}

abbrev second : LogAddDaxdev
second = record { dd_size = 2 ^ 33; dd_uuid = 8 ∷ []; dd_index = 1 }

abbrev second_entry : LogEntry
second_entry = record { seqnum = 5; payload = add_daxdev second; crc = 0 }

table_add_lem_example :
    let (t', rc) = famfs_daxdev_table_add false one_device 4 second_entry in
    IsNext one_device 4 second × (rc ≡ ok) × (t' ≡ append_daxdev one_device second) × IsTable 4 t'
    ⊎ (¬ IsNext one_device 4 second) × (rc ≢ ok) × (t' ≡ one_device)
table_add_lem_example = table_add_lem one_device 4 second one_device-IsTable second_entry refl
