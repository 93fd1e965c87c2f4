-- ===== src/Tests/Inodes.antt =====
-- The inode cache with the root and one file.
use famfs.Prelude.{ℕ, ◌<◌, ◌≡◌, refl, Bool, true, false, ◌==◌, store, some, arith}
use famfs.Icache.{
  Inode, Icache, famfs_icache_init, famfs_inode_alloc, famfs_icache_insert_locked,
  famfs_inode_putref_locked, famfs_get_inode_from_nodeid_locked,
}
use famfs.Icache.Count.{count_below}
use famfs.Icache.Inv.{IsSound}
use famfs.Icache.Insert.{IsNew, insert-IsSound}
use famfs.Icache.Steps.{plus}
use famfs.Icache.Getref.{nodeid_lem}
use famfs.Icache.Putref.{IsReleased, putref_lem}

abbrev empty_memory : ℕ → Inode
empty_memory a = record {
  next = 0;
  prev = 0;
  ino = 0;
  refcount = 0;
  cached = false;
  pinned = false;
  parent = 0;
}

-- The root at 1, and a new inode at 2.
abbrev with_new : Icache
with_new = famfs_inode_alloc 2 77 1 (famfs_icache_init empty_memory)

abbrev only_root : ℕ → Bool
only_root a = a == 1

abbrev two : ℕ → ℕ
two a = 2

at_root : (a : ℕ) → only_root a ≡ true → a ≡ 1
at_root a h = ground arith

with_new-IsSound : IsSound 3 with_new only_root two
unfolding famfs_icache_init famfs_inode_alloc count_below
with_new-IsSound = record {
  root_in = refl;
  root_ino = refl;
  no_null = refl;
  below = λ a h. omega (arith, at_root a h);
  alive = λ a h. rw (at_root a h) refl;
  in_use = λ a h. rw (at_root a h) refl;
  ring = record {
    next_in = λ a h. rw (at_root a h) refl;
    prev_in = λ a h. rw (at_root a h) refl;
    there = λ a h. rw (at_root a h) refl;
    back = λ a h. rw (at_root a h) refl;
  };
  parent_in = λ a h ne. absurd (ne (rw (at_root a h) refl));
  refs = λ a h. rw (at_root a h) refl;
  size = refl;
}

second-IsNew : IsNew 3 with_new only_root 2
unfolding famfs_icache_init famfs_inode_alloc
second-IsNew = record {
  outside = refl;
  some_address = λ e. absurd (omega (arith, e));
  in_bound = omega arith;
  alive = refl;
  parent_in = λ ne. refl;
}

insert-IsSound_example :
    IsSound 3 (famfs_icache_insert_locked 2 with_new) (store only_root 2 true) (store two 2 2)
insert-IsSound_example = insert-IsSound 3 with_new only_root two 2 with_new-IsSound second-IsNew

abbrev with_file : Icache
with_file = famfs_icache_insert_locked 2 with_new

with_file-IsSound : IsSound 3 with_file (store only_root 2 true) (store two 2 2)
with_file-IsSound = insert-IsSound 3 with_new only_root two 2 with_new-IsSound second-IsNew

few : with_file.count < 5
unfolding count_below
few = omega (arith, with_file-IsSound.size)

putref_lem_example :
    (c' : Icache) × (famfs_inode_putref_locked 5 2 2 with_file ≡ some c')
    × IsReleased 3 with_file (store only_root 2 true) (store two 2 2) 2 2 c'
putref_lem_example =
    putref_lem 3 5 2 2 with_file (store only_root 2 true) (store two 2 2) with_file-IsSound refl
      (omega arith) few

nodeid_lem_example :
    let (found, c') = famfs_get_inode_from_nodeid_locked 1 with_new in
    (found ≡ 1) × IsSound 3 c' only_root (plus two 1 1)
unfolding famfs_icache_init famfs_inode_alloc
nodeid_lem_example = nodeid_lem 3 1 with_new only_root two with_new-IsSound refl (omega arith)
