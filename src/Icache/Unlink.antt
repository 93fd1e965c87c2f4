-- ===== src/Icache/Unlink.antt =====
-- Taking an inode out of the ring in `famfs_inode_putref_locked` (src/famfs_fused_icache.c).
use famfs.Prelude.{
  ℕ, suc, ◌-◌, ◌≡◌, ◌≢◌, refl, ◌∙◌, sym, ap, Bool, true, false, ◌==◌, if◌then◌else◌, store, arith,
  Bool-cases, inl, inr,
}
use famfs.Icache.{Icache, root, unlink}
use famfs.Icache.Count.{count_below, count_same, count_less, count_zero}
use famfs.Icache.Drop.{true_not_false}
use famfs.Icache.Inv.{child_of, IsRing, IsSound}
use famfs.Icache.Steps.{plus}

module _ (bound : ℕ) (c : Icache) (mem : ℕ → Bool) (held : ℕ → ℕ)
    (s : IsSound bound c mem held) where
  -- An inode that nobody holds and that is nobody's parent leaves the ring, and its own reference to
  -- its parent is left over.
  module _ (a : ℕ) (m : mem a ≡ true) (free : (c.heap a).refcount ≡ 0) (ne : a ≢ root) where
    abbrev pub without : ℕ → Bool
    without = store mem a false

    pub outside : (x : ℕ) → without x ≡ true → (x ≢ a) × (mem x ≡ true)
    outside x h = (λ e. absurd (ground (arith, e)), ground arith)

    pub inside : (x : ℕ) → x ≢ a → mem x ≡ true → without x ≡ true
    inside x h k = ground (arith, h, k)

    unlink_next :
        (x : ℕ)
        → x ≢ a
        → ((unlink a c).heap x).next
          ≡ (if x == (c.heap a).prev then (c.heap a).next else (c.heap x).next)
    unfolding unlink
    unlink_next x h = ground (arith, h)

    unlink_prev :
        (x : ℕ)
        → x ≢ a
        → ((unlink a c).heap x).prev
          ≡ (if x == (c.heap a).next then (c.heap a).prev else (c.heap x).prev)
    unfolding unlink
    unlink_prev x h = ground (arith, h)

    -- The successor of a member that is not the predecessor of `a` is not `a`.
    next_not : (x : ℕ) → mem x ≡ true → x ≢ (c.heap a).prev → (c.heap x).next ≢ a
    next_not x h ne' e = ne' (rw e at (sym (s.ring.there x h)))

    prev_not : (x : ℕ) → mem x ≡ true → x ≢ (c.heap a).next → (c.heap x).prev ≢ a
    prev_not x h ne' e = ne' (rw e at (sym (s.ring.back x h)))

    -- Where the predecessor is another inode, so is the successor.
    next_other : (c.heap a).prev ≢ a → (c.heap a).next ≢ a
    next_other ne' e = ne' (rw e at (s.ring.there a m))

    prev_other : (c.heap a).next ≢ a → (c.heap a).prev ≢ a
    prev_other ne' e = ne' (rw e at (s.ring.back a m))

    ring_next_in : (x : ℕ) → without x ≡ true → without ((unlink a c).heap x).next ≡ true
    ring_next_in x h =
        let (xa, mx) = outside x h in
        elim (Bool-cases (x == (c.heap a).prev)) [
          | inl before ↦
              let at : x ≡ (c.heap a).prev = ground arith in
              rw (unlink_next x xa, before)
                (inside (c.heap a).next (next_other (rw at at xa)) (s.ring.next_in a m))
          | inr other_ ↦
              rw (unlink_next x xa, other_)
                (inside (c.heap x).next (next_not x mx (λ e. absurd (ground arith)))
                  (s.ring.next_in x mx))
        ]

    ring_prev_in : (x : ℕ) → without x ≡ true → without ((unlink a c).heap x).prev ≡ true
    ring_prev_in x h =
        let (xa, mx) = outside x h in
        elim (Bool-cases (x == (c.heap a).next)) [
          | inl after ↦
              let at : x ≡ (c.heap a).next = ground arith in
              rw (unlink_prev x xa, after)
                (inside (c.heap a).prev (prev_other (rw at at xa)) (s.ring.prev_in a m))
          | inr other_ ↦
              rw (unlink_prev x xa, other_)
                (inside (c.heap x).prev (prev_not x mx (λ e. absurd (ground arith)))
                  (s.ring.prev_in x mx))
        ]

    ring_there :
        (x : ℕ) → without x ≡ true → ((unlink a c).heap ((unlink a c).heap x).next).prev ≡ x
    ring_there x h =
        let (xa, mx) = outside x h in
        elim (Bool-cases (x == (c.heap a).prev)) [
          | inl before ↦
              let at : x ≡ (c.heap a).prev = ground arith in
              rw (unlink_next x xa, before, unlink_prev (c.heap a).next (next_other (rw at at xa)))
                (ground (arith, at))
          | inr other_ ↦
              let y = (c.heap x).next in
              let ya : y ≢ a = next_not x mx (λ e. absurd (ground arith)) in
              rw (unlink_next x xa, other_, unlink_prev y ya)
                (elim (Bool-cases (y == (c.heap a).next)) [
                  | inl same ↦
                      let at : y ≡ (c.heap a).next = ground arith in
                      absurd (
                        xa (
                          sym (s.ring.there x mx)
                          ∙ ap (λ z. (c.heap z).prev) at
                          ∙ s.ring.there a m))
                  | inr differs ↦ rw differs (s.ring.there x mx)
                ])
        ]

    ring_back : (x : ℕ) → without x ≡ true → ((unlink a c).heap ((unlink a c).heap x).prev).next ≡ x
    ring_back x h =
        let (xa, mx) = outside x h in
        elim (Bool-cases (x == (c.heap a).next)) [
          | inl after ↦
              let at : x ≡ (c.heap a).next = ground arith in
              rw (unlink_prev x xa, after, unlink_next (c.heap a).prev (prev_other (rw at at xa)))
                (ground (arith, at))
          | inr other_ ↦
              let y = (c.heap x).prev in
              let ya : y ≢ a = prev_not x mx (λ e. absurd (ground arith)) in
              rw (unlink_prev x xa, other_, unlink_next y ya)
                (elim (Bool-cases (y == (c.heap a).prev)) [
                  | inl same ↦
                      let at : y ≡ (c.heap a).prev = ground arith in
                      absurd (
                        xa
                          (sym (s.ring.back x mx) ∙ ap (λ z. (c.heap z).next) at ∙ s.ring.back a m))
                  | inr differs ↦ rw differs (s.ring.back x mx)
                ])
        ]

    pub unlink-IsRing : IsRing (unlink a c).heap without
    unlink-IsRing = record {
      next_in = ring_next_in;
      prev_in = ring_prev_in;
      there = ring_there;
      back = ring_back;
    }

    unlink_parent : (x : ℕ) → ((unlink a c).heap x).parent ≡ (c.heap x).parent
    unfolding unlink
    unlink_parent x = ground arith

    unlink_refcount : (x : ℕ) → ((unlink a c).heap x).refcount ≡ (c.heap x).refcount
    unfolding unlink
    unlink_refcount x = ground arith

    pub unlink_ino : (x : ℕ) → ((unlink a c).heap x).ino ≡ (c.heap x).ino
    unfolding unlink
    unlink_ino x = ground arith

    unlink_cached : (x : ℕ) → x ≢ a → ((unlink a c).heap x).cached ≡ (c.heap x).cached
    unfolding unlink
    unlink_cached x h = ground (arith, h)

    unlink_live : (x : ℕ) → (unlink a c).live x ≡ c.live x
    unfolding unlink
    unlink_live x = refl

    -- The members besides `a`, and the children of an inode besides `a`.
    abbrev children : ℕ → ℕ
    children p = count_below (child_of (unlink a c).heap without p) bound

    same_child :
        (p x : ℕ) → x ≢ a → child_of c.heap mem p x ≡ child_of (unlink a c).heap without p x
    same_child p x ne' = rw (unlink_parent x) (ground (arith, ne'))

    gone : (p : ℕ) → child_of (unlink a c).heap without p a ≡ false
    gone p = ground arith

    children_of_parent :
        (p : ℕ)
        → p ≡ (c.heap a).parent
        → count_below (child_of c.heap mem p) bound ≡ suc (children p)
    children_of_parent p e =
        count_less (child_of c.heap mem p) (child_of (unlink a c).heap without p) a bound
          (s.below a m) (rw (m, e) (ground arith)) (gone p) (same_child p)

    children_of_other :
        (p : ℕ) → p ≢ (c.heap a).parent → count_below (child_of c.heap mem p) bound ≡ children p
    children_of_other p ne' =
        count_same (child_of c.heap mem p) (child_of (unlink a c).heap without p) bound (λ x lt.
          elim (Bool-cases (x == a)) [
            | inl here ↦ let at : x ≡ a = ground arith in rw at (not_child p ne' ∙ sym (gone p))
            | inr there ↦ same_child p x (λ e. absurd (ground arith))
          ])
      where
        not_child : (p : ℕ) → p ≢ (c.heap a).parent → child_of c.heap mem p a ≡ false
        not_child p ne' = rw m (ground (arith, ne'))

    pub no_child : (x : ℕ) → mem x ≡ true → (c.heap x).parent ≢ a
    no_child x h e =
        let empty : count_below (child_of c.heap mem a) bound ≡ 0 =
          omega (arith, s.refs a m, free) in
        let none_ = count_zero (child_of c.heap mem a) bound x empty (s.below x h) in
        true_not_false (sym (rw (h, e) (ground arith)) ∙ none_)

    fewer : count_below mem bound ≡ suc (count_below without bound)
    fewer =
        count_less mem without a bound (s.below a m) m (ground arith) (λ x ne'. ground (arith, ne'))

    some_left : count_below without bound ≢ 0
    some_left e = true_not_false (
        sym (inside root (λ q. ne (sym q)) s.root_in)
        ∙ count_zero without bound root e (s.below root s.root_in))

    smaller : (unlink a c).count ≡ c.count - 1
    unfolding unlink
    smaller = refl

    pub unlink_count : c.count ≡ suc (unlink a c).count
    unlink_count = omega (arith, smaller, s.size, fewer, some_left)

    pub unlink-IsSound : IsSound bound (unlink a c) without (plus held (c.heap a).parent 1)
    unlink-IsSound = record {
      root_in = inside root (λ q. ne (sym q)) s.root_in;
      root_ino = unlink_ino root ∙ s.root_ino;
      no_null = ground (arith, s.no_null);
      below = λ x h. s.below x (outside x h).1;
      alive = λ x h. unlink_live x ∙ s.alive x (outside x h).1;
      in_use = λ x h. unlink_cached x (outside x h).0 ∙ s.in_use x (outside x h).1;
      ring = unlink-IsRing;
      parent_in = λ x h nn.
          let mx = (outside x h).1 in
          rw (unlink_parent x) (
            inside (c.heap x).parent (no_child x mx)
              (s.parent_in x mx (rw (unlink_parent x) at nn)));
      refs = λ x h. elim (Bool-cases (x == (c.heap a).parent)) [
        | inl up ↦
            let at : x ≡ (c.heap a).parent = ground arith in
            rw (unlink_refcount x)
              (ground (arith, s.refs x (outside x h).1, children_of_parent x at, at))
        | inr other_ ↦
            let ne' : x ≢ (c.heap a).parent = λ e. absurd (ground arith) in
            rw (unlink_refcount x)
              (ground (arith, s.refs x (outside x h).1, children_of_other x ne', ne'))
      ];
      size = omega (arith, smaller, s.size, fewer, some_left);
    }
