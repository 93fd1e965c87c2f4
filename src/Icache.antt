-- ===== src/Icache.antt =====
-- The inode cache of the fuse daemon (src/famfs_fused_icache.c, src/famfs_fused_icache.h): inodes in a
-- doubly linked ring with their reference counts, at their addresses.
pub mod Count
pub mod Inv
pub mod Drop
pub mod Steps
pub mod Unlink
pub mod Getref
pub mod Putref
pub mod Insert
use famfs.Prelude.{
  ℕ, zero, suc, ◌+◌, ◌-◌, Bool, true, false, ◌&&◌, ◌||◌, not, ◌==◌, ltb, leb, if◌then◌else◌, Option,
  none, some, ◌>>=◌, ◌>>◌, assert, store,
}

-- `struct famfs_inode`, less what is only handed on. `cached` says that `icache` is set.
pub record Inode : Type 0 where
  pub next : ℕ
  pub prev : ℕ
  pub ino : ℕ
  pub refcount : ℕ
  pub cached : Bool
  pub pinned : Bool
  pub parent : ℕ

-- `struct famfs_icache` with the memory of the inodes; `live` is false where it was freed.
pub record Icache : Type 0 where
  pub heap : ℕ → Inode
  pub live : ℕ → Bool
  pub count : ℕ

-- The node id of the root inode is its inode number, FUSE_ROOT_ID; it serves as its address too.
abbrev pub root : ℕ
root = 1

abbrev pub null : ℕ
null = 0

-- `famfs_icache_init`
unfoldable pub famfs_icache_init : (ℕ → Inode) → Icache
famfs_icache_init heap = record {
  heap = store heap root (record {
    next = root;
    prev = root;
    ino = 1;
    refcount = 2;
    cached = true;
    pinned = false;
    parent = null;
  });
  live = λ a. a == root;
  count = 0;
}

-- `famfs_inode_alloc`, at the address that calloc gave.
unfoldable pub famfs_inode_alloc : ℕ → ℕ → ℕ → Icache → Icache
famfs_inode_alloc a inode_num parent c = record c {
  heap = store c.heap a (record {
    next = null;
    prev = null;
    ino = inode_num;
    refcount = 1;
    cached = true;
    pinned = false;
    parent = parent;
  });
  live = store c.live a true;
}

pub famfs_inode_getref_locked : ℕ → Icache → Icache
famfs_inode_getref_locked a c = if a == null then c else record c {
  heap = store c.heap a (record (c.heap a) { refcount = (c.heap a).refcount + 1 });
}

abbrev pub set_next : (ℕ → Inode) → ℕ → ℕ → ℕ → Inode
set_next h a v = store h a (record (h a) { next = v })

abbrev pub set_prev : (ℕ → Inode) → ℕ → ℕ → ℕ → Inode
set_prev h a v = store h a (record (h a) { prev = v })

abbrev pub set_refcount : (ℕ → Inode) → ℕ → ℕ → ℕ → Inode
set_refcount h a v = store h a (record (h a) { refcount = v })

-- The ring with `a` behind the root.
pub link : ℕ → (ℕ → Inode) → ℕ → Inode
link a h0 =
    let h1 = set_refcount h0 a 2 in
    let next = (h1 root).next in
    let h2 = set_prev h1 next a in
    let h3 = set_next h2 a next in
    let h4 = set_prev h3 a root in
    let h5 = set_next h4 root a in store h5 a (record (h5 a) { cached = true })

pub famfs_icache_insert_locked : ℕ → Icache → Icache
famfs_icache_insert_locked a c =
    let linked = record c { heap = link a c.heap } in
    let got = famfs_inode_getref_locked (linked.heap a).parent linked in
    record got { count = got.count + 1 }

-- `next->prev = prev; prev->next = next;`, and no longer in the cache.
pub unlink : ℕ → Icache → Icache
unlink a c =
    let prev = (c.heap a).prev in
    let next = (c.heap a).next in
    let h1 = set_prev c.heap next prev in
    let h2 = set_next h1 prev next in
    record c { heap = store h2 a (record (h2 a) { cached = false }); count = c.count - 1 }

pub famfs_inode_free : ℕ → Icache → Icache
famfs_inode_free a c = if (c.heap a).ino == 1 then c else record c { live = store c.live a false }

-- `inode->parent = 0`, and free.
pub drop_inode : ℕ → Icache → Icache
drop_inode a c =
    famfs_inode_free a (record c { heap = store c.heap a (record (c.heap a) { parent = null }) })

pub is_unused : Inode → Bool
is_unused i = i.refcount == 0 && not i.pinned && not (i.ino == 1)

-- `none`: the assertion on the count failed, or the fuel for the parents ran out.
pub famfs_inode_putref_locked : ℕ → ℕ → ℕ → Icache → Option Icache
famfs_inode_putref_locked zero a n c = none
famfs_inode_putref_locked (suc fuel) a n c =
    let c1 = record c { heap = set_refcount c.heap a ((c.heap a).refcount - n) } in
    let parent = (c.heap a).parent in
    let rest = famfs_inode_putref_locked fuel parent 1 (unlink a c1) in
    if ltb (c.heap a).refcount n
    then none
    else if not (is_unused (c1.heap a))
    then some c1
    else if parent == null
    then some (drop_inode a (unlink a c1))
    else rest >>= λ c2. some (drop_inode a c2)

-- `famfs_icache_unref_inode`, with its assertions.
pub famfs_icache_unref_inode : ℕ → ℕ → ℕ → Icache → Option Icache
famfs_icache_unref_inode fuel a n c = if a == null then some c else (do
  assert (leb n (c.heap a).refcount)
  assert (c.heap a).cached
  famfs_inode_putref_locked fuel a n c)

-- The address that is returned, null if the node is not in use, and the count of its references.
pub famfs_get_inode_from_nodeid_locked : ℕ → Icache → ℕ × Icache
famfs_get_inode_from_nodeid_locked nodeid c =
    if not (c.heap nodeid).cached || ltb (c.heap nodeid).refcount 1
    then (null, c)
    else (nodeid, famfs_inode_getref_locked nodeid c)
