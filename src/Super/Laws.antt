-- ===== src/Super/Laws.antt =====
-- What `famfs_check_super`, `famfs_get_role` and `__famfs_mkfs` of src/famfs_lib.c guarantee.
use famfs.Prelude.{
  ℕ, ◌^◌, ◌≤◌, ◌<◌, ◌≡◌, refl, ◌⊎◌, ◌↔◌, inr, Bool, true, false, Option, none, some, List, arith,
}
use famfs.Prelude.Lists.{list_eq, list_eq_iff}
use famfs.Meta.{ok, FamfsLog, Checksum}
use famfs.Log.{famfs_gen_log_header_crc, famfs_validate_log_header}
use famfs.Log.Inv.{IsValid}
use famfs.Super.{
  Superblock, master, client, nosuper, good, bad, super_magic, current_version,
  famfs_gen_superblock_crc, famfs_check_super, famfs_get_role, famfs_kill_superblock,
  new_superblock, new_log, famfs_mkfs,
}

-- A superblock that this version of the library can use.
pub record IsGood (sum : Checksum) (sb : Superblock) : Type 0 where
  pub magic : sb.ts_magic ≡ super_magic
  pub version : sb.ts_version ≡ current_version
  pub crc : sb.ts_crc ≡ famfs_gen_superblock_crc sum sb
  pub unit : (sb.ts_alloc_unit ≡ 4096) ⊎ (sb.ts_alloc_unit ≡ 0x200000)

module _ (sum : Checksum) (sb : Superblock) where
  -- The check passes exactly the good superblocks, and then hands out the log's place.
  pub check_super_iff :
      (famfs_check_super sum (some sb) ≡ (good, some (sb.ts_log_offset, sb.ts_log_len)))
      ↔ IsGood sum sb
  unfolding famfs_check_super
  check_super_iff = ground arith

  check_super_good : IsGood sum sb → (famfs_check_super sum (some sb)).0 ≡ good
  unfolding famfs_check_super
  check_super_good g = ground arith

  pub check_super_good_iff : ((famfs_check_super sum (some sb)).0 ≡ good) ↔ IsGood sum sb
  unfolding famfs_check_super
  check_super_good_iff = ground arith

  -- A host is the master exactly if the superblock is good and carries its uuid, and it finds no
  -- superblock exactly if it knows its uuid and the superblock is not good; else it is a client.
  pub get_role_iff :
      (uuid : List ℕ)
      → ((famfs_get_role sum (some uuid) sb ≡ master)
          ↔ (IsGood sum sb × (uuid ≡ sb.ts_system_uuid)))
        × ((famfs_get_role sum (some uuid) sb ≡ nosuper) ↔ (¬ IsGood sum sb))
        × (famfs_get_role sum none sb ≡ client)
  unfolding famfs_get_role
  get_role_iff uuid =
      let master_parts = λ (e : famfs_get_role sum (some uuid) sb ≡ master).
        let c : (famfs_check_super sum (some sb)).0 ≡ good = ground arith in
        let l : list_eq uuid sb.ts_system_uuid ≡ true = ground arith in
        let parts : IsGood sum sb × (uuid ≡ sb.ts_system_uuid) =
          (check_super_good_iff.0 c, (list_eq_iff _ _).0 l) in
        parts in
      let same = list_eq_iff uuid sb.ts_system_uuid in
      let check = check_super_good_iff in
      (
        (λ e. master_parts e, λ g. ground (arith, same, check_super_good g.0)),
        (λ e. ground (arith, check), λ n. ground (arith, check)),
        refl,
      )

pub new_log-IsValid :
    (sum : Checksum) (log_len : ℕ)
    → 592 ≤ log_len
    → log_len < 2 ^ 64
    → IsValid sum (new_log sum log_len)
unfolding new_log
new_log-IsValid sum log_len lo hi = ground arith

module _ (sum : Checksum) (daxdev : List ℕ) (sb : Superblock) (log_len size : ℕ)
    (uuid fs_uuid dev_uuid : List ℕ) where
  pub new_superblock-IsGood :
      IsGood sum (new_superblock sum daxdev sb log_len size uuid fs_uuid dev_uuid)
  unfolding new_superblock famfs_gen_superblock_crc
  new_superblock-IsGood = record { magic = refl; version = refl; crc = refl; unit = inr refl }

  new_log_header : famfs_validate_log_header sum (new_log sum log_len) ≡ ok
  unfolding famfs_validate_log_header new_log famfs_gen_log_header_crc
  new_log_header = ground arith

  writes :
      (logp : FamfsLog) (force : Bool)
      → ((famfs_check_super sum (some sb)).0 ≡ bad) ⊎ (force ≡ true)
      → famfs_mkfs sum daxdev sb logp log_len size force false (some uuid) fs_uuid dev_uuid
        ≡ (ok, new_superblock sum daxdev sb log_len size uuid fs_uuid dev_uuid, new_log sum log_len)
  unfolding famfs_mkfs
  writes logp force allowed = ground arith

  -- Formatting a device whose superblock is bad, or any device by force: with a log of at least one
  -- slot and a known system uuid, it leaves a superblock that passes the check at the standard log
  -- offset, a log whose header is valid and that is valid and empty, and this host the master.
  pub mkfs_makes :
      (logp : FamfsLog) (force : Bool)
      → ((famfs_check_super sum (some sb)).0 ≡ bad) ⊎ (force ≡ true)
      → 592 ≤ log_len
      → log_len < 2 ^ 64
      → let (rc, sb', logp') =
          famfs_mkfs sum daxdev sb logp log_len size force false (some uuid) fs_uuid dev_uuid in
        (rc ≡ ok)
        × (famfs_check_super sum (some sb') ≡ (good, some (0x200000, log_len)))
        × (famfs_get_role sum (some uuid) sb' ≡ master)
        × (famfs_validate_log_header sum logp' ≡ ok)
        × IsValid sum logp'
        × (logp'.next_index ≡ 0)
        × (sb'.ts_daxdev.dd_size ≡ size)
  unfolding new_superblock
  mkfs_makes logp force allowed lo hi = rw (writes logp force allowed) (
    refl,
    (check_super_iff sum made).1 new_superblock-IsGood,
    (get_role_iff sum made uuid).0.1 (new_superblock-IsGood, refl),
    new_log_header,
    new_log-IsValid sum log_len lo hi,
    unfold new_log in refl,
    refl,
  )
    where
      made : Superblock
      made = new_superblock sum daxdev sb log_len size uuid fs_uuid dev_uuid

module _ (sum : Checksum) (daxdev : List ℕ) (sb : Superblock) (logp : FamfsLog) (log_len size : ℕ)
    (system_uuid : Option (List ℕ)) (fs_uuid dev_uuid : List ℕ) where
  -- With kill and force the superblock no longer passes the check, whatever it was, and the log
  -- stays as it was.
  pub mkfs_kills :
      let (rc, sb', logp') =
        famfs_mkfs sum daxdev sb logp log_len size true true system_uuid fs_uuid dev_uuid in
      (rc ≡ ok) × (famfs_check_super sum (some sb') ≡ (bad, none)) × (logp' ≡ logp)
  unfolding famfs_mkfs famfs_kill_superblock famfs_check_super
  mkfs_kills = (refl, refl, refl)
