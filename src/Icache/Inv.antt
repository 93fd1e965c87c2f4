-- ===== src/Icache/Inv.antt =====
-- The invariant of the inode cache (src/famfs_fused_icache.c).
use famfs.Prelude.{ℕ, ◌+◌, ◌<◌, ◌≡◌, ◌≢◌, Bool, true, false, ◌&&◌, ◌==◌}
use famfs.Icache.{Inode, Icache, root, null}
use famfs.Icache.Count.{count_below}

-- The members whose parent is p.
abbrev pub child_of : (ℕ → Inode) → (ℕ → Bool) → ℕ → ℕ → Bool
child_of h mem p x = mem x && (h x).parent == p

-- The links between the members are a ring: every step leads to a member, and back.
pub record IsRing (h : ℕ → Inode) (mem : ℕ → Bool) : Type 0 where
  pub next_in : (a : ℕ) → mem a ≡ true → mem (h a).next ≡ true
  pub prev_in : (a : ℕ) → mem a ≡ true → mem (h a).prev ≡ true
  pub there : (a : ℕ) → mem a ≡ true → (h (h a).next).prev ≡ a
  pub back : (a : ℕ) → mem a ≡ true → (h (h a).prev).next ≡ a

-- `mem` are the inodes in the cache, with the root; `held` the references that users hold, the one for
-- being in the cache included; all addresses are below `bound`.
pub record IsSound (bound : ℕ) (c : Icache) (mem : ℕ → Bool) (held : ℕ → ℕ) : Type 0 where
  pub root_in : mem root ≡ true
  pub root_ino : (c.heap root).ino ≡ 1
  pub no_null : mem null ≡ false
  pub below : (a : ℕ) → mem a ≡ true → a < bound
  pub alive : (a : ℕ) → mem a ≡ true → c.live a ≡ true
  pub in_use : (a : ℕ) → mem a ≡ true → (c.heap a).cached ≡ true
  pub ring : IsRing c.heap mem
  pub parent_in : (a : ℕ) → mem a ≡ true → (c.heap a).parent ≢ null → mem (c.heap a).parent ≡ true
  pub refs :
      (a : ℕ)
      → mem a ≡ true
      → (c.heap a).refcount ≡ held a + count_below (child_of c.heap mem a) bound
  pub size : c.count + 1 ≡ count_below mem bound
