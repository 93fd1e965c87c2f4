-- ===== src/Icache/Getref.antt =====
-- `famfs_inode_getref_locked` and `famfs_get_inode_from_nodeid_locked` of src/famfs_fused_icache.c.
use famfs.Prelude.{
  ℕ, ◌+◌, ◌≤◌, ◌≡◌, ◌≢◌, refl, ◌∙◌, sym, ap, Bool, true, false, not, ◌||◌, ltb, ◌==◌, if◌then◌else◌,
  arith, Bool-cases, inl, inr,
}
use famfs.Icache.{Icache, null, famfs_inode_getref_locked, famfs_get_inode_from_nodeid_locked}
use famfs.Icache.Inv.{IsSound}
use famfs.Icache.Drop.{true_not_false}
use famfs.Icache.Steps.{plus, set_refcount-IsSound}

-- A reference taken changes nothing but the count.
module _ (p : ℕ) (c : Icache) where
  pub getref_next : (x : ℕ) → ((famfs_inode_getref_locked p c).heap x).next ≡ (c.heap x).next
  unfolding famfs_inode_getref_locked
  getref_next x = elim (Bool-cases (p == null)) [
    | inl none_ ↦ rw none_ refl
    | inr some_ ↦ rw some_ (ground arith)
  ]

  pub getref_prev : (x : ℕ) → ((famfs_inode_getref_locked p c).heap x).prev ≡ (c.heap x).prev
  unfolding famfs_inode_getref_locked
  getref_prev x = elim (Bool-cases (p == null)) [
    | inl none_ ↦ rw none_ refl
    | inr some_ ↦ rw some_ (ground arith)
  ]

  pub getref_parent : (x : ℕ) → ((famfs_inode_getref_locked p c).heap x).parent ≡ (c.heap x).parent
  unfolding famfs_inode_getref_locked
  getref_parent x = elim (Bool-cases (p == null)) [
    | inl none_ ↦ rw none_ refl
    | inr some_ ↦ rw some_ (ground arith)
  ]

  pub getref_ino : (x : ℕ) → ((famfs_inode_getref_locked p c).heap x).ino ≡ (c.heap x).ino
  unfolding famfs_inode_getref_locked
  getref_ino x = elim (Bool-cases (p == null)) [
    | inl none_ ↦ rw none_ refl
    | inr some_ ↦ rw some_ (ground arith)
  ]

  pub getref_cached : (x : ℕ) → ((famfs_inode_getref_locked p c).heap x).cached ≡ (c.heap x).cached
  unfolding famfs_inode_getref_locked
  getref_cached x = elim (Bool-cases (p == null)) [
    | inl none_ ↦ rw none_ refl
    | inr some_ ↦ rw some_ (ground arith)
  ]

  pub getref_live : (famfs_inode_getref_locked p c).live ≡ c.live
  unfolding famfs_inode_getref_locked
  getref_live = elim (Bool-cases (p == null)) [
    | inl none_ ↦ rw none_ refl
    | inr some_ ↦ rw some_ refl
  ]

  pub getref_count : (famfs_inode_getref_locked p c).count ≡ c.count
  unfolding famfs_inode_getref_locked
  getref_count = elim (Bool-cases (p == null)) [
    | inl none_ ↦ rw none_ refl
    | inr some_ ↦ rw some_ refl
  ]

  pub getref_refcount :
      (x : ℕ)
      → x ≢ null
      → ((famfs_inode_getref_locked p c).heap x).refcount
        ≡ (if x == p then (c.heap x).refcount + 1 else (c.heap x).refcount)
  unfolding famfs_inode_getref_locked
  getref_refcount x ne = elim (Bool-cases (p == null)) [
    | inl none_ ↦ rw none_ (ground (arith, ne))
    | inr some_ ↦ rw some_ (ground arith)
  ]

module _ (bound a : ℕ) (c : Icache) (mem : ℕ → Bool) (held : ℕ → ℕ) where
  -- In a sound cache, the node id of a member to which there is a reference is resolved to that member;
  -- one reference more is held to it, and the cache stays sound.
  pub nodeid_lem :
      IsSound bound c mem held
      → mem a ≡ true
      → 1 ≤ (c.heap a).refcount
      → let (found, c') = famfs_get_inode_from_nodeid_locked a c in
        (found ≡ a) × IsSound bound c' mem (plus held a 1)
  unfolding famfs_get_inode_from_nodeid_locked famfs_inode_getref_locked
  nodeid_lem s m used =
      let usable : (not (c.heap a).cached || ltb (c.heap a).refcount 1) ≡ false =
        rw (s.in_use a m) (ground (arith, used)) in
      let some_ : (a == null) ≡ false = elim (Bool-cases (a == null)) [
        | inl none_ ↦
            let at : a ≡ null = ground arith in
            absurd (true_not_false (sym m ∙ ap mem at ∙ s.no_null))
        | inr ok_ ↦ ok_
      ] in
      rw (usable, some_)
        (
          refl,
          set_refcount-IsSound bound c mem held s a ((c.heap a).refcount + 1) (plus held a 1) m
              (ground (arith, s.refs a m)) (λ x ne. ground (arith, ne)),
        )
