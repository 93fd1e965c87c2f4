-- ===== src/Icache/Drop.antt =====
-- What freeing an inode (src/famfs_fused_icache.c) leaves as it is.
use famfs.Prelude.{ℕ, ◌≡◌, ◌≢◌, refl, Bool, true, false, ◌==◌, store, arith, Bool-cases, inl, inr}
use famfs.Icache.{Inode, Icache, null, drop_inode, famfs_inode_free}
use famfs.Icache.Inv.{child_of}

pub true_not_false : true ≡ false → ⊥
true_not_false e = cc

-- What `drop_inode` leaves as it is.
module _ (c : Icache) (a : ℕ) where
  abbrev orphan : ℕ → Inode
  orphan = store c.heap a (record (c.heap a) { parent = null })

  pub drop_heap : (drop_inode a c).heap ≡ orphan
  unfolding drop_inode famfs_inode_free
  drop_heap = elim (Bool-cases ((orphan a).ino == 1)) [
    | inl root_ ↦ rw root_ refl
    | inr other_ ↦ rw other_ refl
  ]

  pub drop_count : (drop_inode a c).count ≡ c.count
  unfolding drop_inode famfs_inode_free
  drop_count = elim (Bool-cases ((orphan a).ino == 1)) [
    | inl root_ ↦ rw root_ refl
    | inr other_ ↦ rw other_ refl
  ]

  pub drop_live : (x : ℕ) → x ≢ a → (drop_inode a c).live x ≡ c.live x
  unfolding drop_inode famfs_inode_free
  drop_live x ne = elim (Bool-cases ((orphan a).ino == 1)) [
    | inl root_ ↦ rw root_ refl
    | inr other_ ↦ rw other_ (ground (arith, ne))
  ]

  pub drop_next : (x : ℕ) → ((drop_inode a c).heap x).next ≡ (c.heap x).next
  drop_next x = rw drop_heap (ground arith)

  pub drop_prev : (x : ℕ) → ((drop_inode a c).heap x).prev ≡ (c.heap x).prev
  drop_prev x = rw drop_heap (ground arith)

  pub drop_ino : (x : ℕ) → ((drop_inode a c).heap x).ino ≡ (c.heap x).ino
  drop_ino x = rw drop_heap (ground arith)

  pub drop_refcount : (x : ℕ) → ((drop_inode a c).heap x).refcount ≡ (c.heap x).refcount
  drop_refcount x = rw drop_heap (ground arith)

  pub drop_cached : (x : ℕ) → ((drop_inode a c).heap x).cached ≡ (c.heap x).cached
  drop_cached x = rw drop_heap (ground arith)

  pub drop_parent : (x : ℕ) → x ≢ a → ((drop_inode a c).heap x).parent ≡ (c.heap x).parent
  drop_parent x ne = rw drop_heap (ground (arith, ne))

  pub drop_dead : (c.heap a).ino ≢ 1 → (drop_inode a c).live a ≡ false
  unfolding drop_inode famfs_inode_free
  drop_dead ne = ground (arith, ne)

  pub drop_stays_dead : (x : ℕ) → c.live x ≡ false → (drop_inode a c).live x ≡ false
  unfolding drop_inode famfs_inode_free
  drop_stays_dead x h = ground (arith, h)

  pub drop_child :
      (mem : ℕ → Bool)
      → mem a ≡ false
      → (p x : ℕ) → child_of (drop_inode a c).heap mem p x ≡ child_of c.heap mem p x
  drop_child mem out p x = elim (Bool-cases (x == a)) [
    | inl here ↦ let at : x ≡ a = ground arith in rw (at, out) refl
    | inr there ↦ rw (drop_parent x (λ e. absurd (ground arith))) refl
  ]
