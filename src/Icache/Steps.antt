-- ===== src/Icache/Steps.antt =====
-- The steps of `famfs_inode_putref_locked` (src/famfs_fused_icache.c) keep the invariant.
use famfs.Prelude.{ℕ, ◌+◌, ◌-◌, ◌≡◌, ◌≢◌, refl, ◌∙◌, sym, ap, Bool, true, false, store, arith}
use famfs.Icache.{Icache, root, set_refcount, drop_inode}
use famfs.Icache.Count.{count_below, count_same}
use famfs.Icache.Drop.{
  true_not_false, drop_count, drop_live, drop_next, drop_prev, drop_ino, drop_refcount, drop_cached,
  drop_parent, drop_child,
}
use famfs.Icache.Inv.{child_of, IsSound}

-- References taken or dropped at one address.
abbrev pub minus : (ℕ → ℕ) → ℕ → ℕ → ℕ → ℕ
minus held a n = store held a (held a - n)

abbrev pub plus : (ℕ → ℕ) → ℕ → ℕ → ℕ → ℕ
plus held a n = store held a (held a + n)

module _ (bound : ℕ) where
  -- Only the values of `held` at members matter.
  pub held_agree :
      (c : Icache) (mem : ℕ → Bool) (held held' : ℕ → ℕ)
      → ((a : ℕ) → mem a ≡ true → held' a ≡ held a)
      → IsSound bound c mem held
      → IsSound bound c mem held'
  held_agree c mem held held' e s = record {
    root_in = s.root_in;
    root_ino = s.root_ino;
    no_null = s.no_null;
    below = s.below;
    alive = s.alive;
    in_use = s.in_use;
    ring = s.ring;
    parent_in = s.parent_in;
    refs = λ a h. omega (arith, s.refs a h, e a h);
    size = s.size;
  }

  module _ (c : Icache) (mem : ℕ → Bool) (held : ℕ → ℕ) (s : IsSound bound c mem held) where
    -- A count may change with the references held.
    pub set_refcount-IsSound :
        (a v : ℕ) (held' : ℕ → ℕ)
        → mem a ≡ true
        → v ≡ held' a + count_below (child_of c.heap mem a) bound
        → ((x : ℕ) → x ≢ a → held' x ≡ held x)
        → IsSound bound (record c { heap = set_refcount c.heap a v }) mem held'
    set_refcount-IsSound a v held' m val same =
        let h' = set_refcount c.heap a v in
        let parents = λ (x : ℕ). let e : (h' x).parent ≡ (c.heap x).parent = ground arith in e in
        let nexts = λ (x : ℕ). let e : (h' x).next ≡ (c.heap x).next = ground arith in e in
        let prevs = λ (x : ℕ). let e : (h' x).prev ≡ (c.heap x).prev = ground arith in e in
        let kids = λ (p : ℕ).
          count_same (child_of h' mem p) (child_of c.heap mem p) bound
            (λ x lt. rw (parents x) refl) in
        record {
          root_in = s.root_in;
          root_ino = ground (arith, s.root_ino);
          no_null = s.no_null;
          below = s.below;
          alive = s.alive;
          in_use = λ x h. ground (arith, s.in_use x h);
          ring = record {
            next_in = λ x h. rw (nexts x) (s.ring.next_in x h);
            prev_in = λ x h. rw (prevs x) (s.ring.prev_in x h);
            there = λ x h. rw (nexts x, prevs (c.heap x).next) (s.ring.there x h);
            back = λ x h. rw (prevs x, nexts (c.heap x).prev) (s.ring.back x h);
          };
          parent_in = λ x h. rw (parents x) (s.parent_in x h);
          refs = λ x h. rw (kids x) (ground (arith, val, same x, s.refs x h));
          size = s.size;
        }

    -- What is outside of the cache may be freed.
    pub drop-IsSound : (a : ℕ) → mem a ≡ false → IsSound bound (drop_inode a c) mem held
    drop-IsSound a out =
        let h' = (drop_inode a c).heap in
        let other_ = λ (x : ℕ) (h : mem x ≡ true).
          let e : x ≢ a = λ q. absurd (true_not_false (sym h ∙ ap mem q ∙ out)) in e in
        let kids = λ (p : ℕ).
          count_same (child_of h' mem p) (child_of c.heap mem p) bound
            (λ x lt. drop_child c a mem out p x) in
        record {
          root_in = s.root_in;
          root_ino = drop_ino c a root ∙ s.root_ino;
          no_null = s.no_null;
          below = s.below;
          alive = λ x h. drop_live c a x (other_ x h) ∙ s.alive x h;
          in_use = λ x h. drop_cached c a x ∙ s.in_use x h;
          ring = record {
            next_in = λ x h. rw (drop_next c a x) (s.ring.next_in x h);
            prev_in = λ x h. rw (drop_prev c a x) (s.ring.prev_in x h);
            there = λ x h. rw (drop_next c a x, drop_prev c a (c.heap x).next) (s.ring.there x h);
            back = λ x h. rw (drop_prev c a x, drop_next c a (c.heap x).prev) (s.ring.back x h);
          };
          parent_in = λ x h. rw (drop_parent c a x (other_ x h)) (s.parent_in x h);
          refs = λ x h. rw (kids x, drop_refcount c a x) (s.refs x h);
          size = ap (λ n. n + 1) (drop_count c a) ∙ s.size;
        }
