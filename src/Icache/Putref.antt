-- ===== src/Icache/Putref.antt =====
-- `famfs_inode_putref_locked` of src/famfs_fused_icache.c returns, keeps the invariant, and frees what
-- nobody refers to any more, up the tree.
use famfs.Prelude.{
  ℕ, zero, suc, ◌-◌, ◌≤◌, ◌<◌, ◌≡◌, ◌≢◌, refl, ◌∙◌, sym, ap, Bool, true, false, not, ◌==◌, ltb,
  store, some, arith, Bool-cases, inl, inr,
}
use famfs.Icache.{
  Inode, Icache, root, null, set_refcount, unlink, drop_inode, is_unused, famfs_inode_putref_locked,
}
use famfs.Icache.Drop.{true_not_false, drop_ino, drop_dead, drop_stays_dead}
use famfs.Icache.Inv.{IsSound}
use famfs.Icache.Steps.{minus, plus, held_agree, set_refcount-IsSound, drop-IsSound}
use famfs.Icache.Unlink.{
  without, unlink-IsSound, unlink_count, no_child, inside, outside, unlink_ino,
}

-- The inode as it is after n references were dropped.
abbrev pub after_drop : Icache → ℕ → ℕ → Inode
after_drop c a n = record (c.heap a) { refcount = (c.heap a).refcount - n }

-- What dropping n references to `a` leaves: the members that are left; the others are freed, and `a` is
-- one of these exactly if it is unused then.
pub record IsReleased (bound : ℕ) (c : Icache) (mem : ℕ → Bool) (held : ℕ → ℕ) (a n : ℕ)
    (c' : Icache) : Type 0 where
  pub members : ℕ → Bool
  pub sound : IsSound bound c' members (minus held a n)
  pub fewer : (x : ℕ) → members x ≡ true → mem x ≡ true
  pub freed : (x : ℕ) → mem x ≡ true → members x ≡ false → c'.live x ≡ false
  pub inos : (x : ℕ) → (c'.heap x).ino ≡ (c.heap x).ino
  pub fate : members a ≡ not (is_unused (after_drop c a n))

store_at : {A : Type 0} (m : ℕ → A) (i : ℕ) (v : A) → store m i v i ≡ v
store_at m i v = let at : (i == i) ≡ true = ground arith in rw at refl

module _ (bound a n : ℕ) (c : Icache) (mem : ℕ → Bool) (held : ℕ → ℕ) (s : IsSound bound c mem held)
    (m : mem a ≡ true) (enough : n ≤ held a) where
  abbrev c1 : Icache
  c1 = record c { heap = set_refcount c.heap a ((c.heap a).refcount - n) }

  here : c1.heap a ≡ after_drop c a n
  here = store_at c.heap a (after_drop c a n)

  -- After the count was lowered.
  lowered : IsSound bound c1 mem (minus held a n)
  lowered =
      set_refcount-IsSound bound c mem held s a ((c.heap a).refcount - n) (minus held a n) m
        (ground (arith, s.refs a m, enough)) (λ x ne. ground (arith, ne))

  no_assertion : ltb (c.heap a).refcount n ≡ false
  no_assertion = ground (arith, s.refs a m, enough)

  same_ino : (x : ℕ) → (c1.heap x).ino ≡ (c.heap x).ino
  same_ino x = ground arith

  kept-IsReleased : is_unused (after_drop c a n) ≡ false → IsReleased bound c mem held a n c1
  kept-IsReleased used = record {
    members = mem;
    sound = lowered;
    fewer = λ x h. h;
    freed = λ x h k. absurd (true_not_false (sym h ∙ k));
    inos = same_ino;
    fate = rw used m;
  }

  module _ (unused : is_unused (after_drop c a n) ≡ true) where
    zero_left : (c1.heap a).refcount ≡ 0
    unfolding is_unused
    zero_left = rw here (ground (arith, unused))

    ino_not : (c.heap a).ino ≢ 1
    unfolding is_unused
    ino_not e = absurd (ground (arith, unused, e))

    not_root : a ≢ root
    not_root e = ino_not (rw e s.root_ino)

    abbrev rest : ℕ → Bool
    rest = without bound c1 mem (minus held a n) lowered a m zero_left not_root

    left : IsSound bound (unlink a c1) rest (plus (minus held a n) (c1.heap a).parent 1)
    left = unlink-IsSound bound c1 mem (minus held a n) lowered a m zero_left not_root

    dropped-IsReleased :
        (c2 : Icache) (mem2 : ℕ → Bool)
        → IsSound bound c2 mem2 (minus held a n)
        → ((x : ℕ) → mem2 x ≡ true → rest x ≡ true)
        → ((x : ℕ) → rest x ≡ true → mem2 x ≡ false → c2.live x ≡ false)
        → ((x : ℕ) → (c2.heap x).ino ≡ (c.heap x).ino)
        → IsReleased bound c mem held a n (drop_inode a c2)
    dropped-IsReleased c2 mem2 s2 sub dead inos =
        let out : mem2 a ≡ false = elim (Bool-cases (mem2 a)) [
          | inl yes_ ↦ absurd (true_not_false (sym (sub a yes_) ∙ store_at mem a false))
          | inr no_ ↦ no_
        ] in
        record {
          members = mem2;
          sound = drop-IsSound bound c2 mem2 (minus held a n) s2 a out;
          fewer = λ x h.
              (outside bound c1 mem (minus held a n) lowered a m zero_left not_root x (sub x h)).1;
          freed = λ x h k. elim (Bool-cases (x == a)) [
            | inl same ↦
                let at : x ≡ a = ground arith in
                rw at (drop_dead c2 a (λ e. ino_not (sym (inos a) ∙ e)))
            | inr other_ ↦ drop_stays_dead c2 a x (
                dead x
                  (inside bound c1 mem (minus held a n) lowered a m zero_left not_root x
                    (λ e. absurd (ground arith)) h)
                  k)
          ];
          inos = λ x. drop_ino c2 a x ∙ inos x;
          fate = rw unused out;
        }

    abbrev up : ℕ
    up = (c.heap a).parent

    left_up : IsSound bound (unlink a c1) rest (plus (minus held a n) up 1)
    left_up = rw (ap (λ (i : Inode). i.parent) here) at (left)

    rest_inos : (x : ℕ) → ((unlink a c1).heap x).ino ≡ (c.heap x).ino
    rest_inos x =
        unlink_ino bound c1 mem (minus held a n) lowered a m zero_left not_root x ∙ same_ino x

    -- Without a parent that is all.
    orphan-IsReleased : up ≡ null → IsReleased bound c mem held a n (drop_inode a (unlink a c1))
    orphan-IsReleased e =
        dropped-IsReleased (unlink a c1) rest
          (held_agree bound (unlink a c1) rest (plus (minus held a n) up 1) (minus held a n)
            (λ x h. not_up x (λ z. true_not_false (sym h ∙ ap rest (z ∙ e) ∙ left.no_null)))
            left_up)
          (λ x h. h) (λ x h k. absurd (true_not_false (sym h ∙ k))) rest_inos
      where
        not_up : (x : ℕ) → x ≢ up → minus held a n x ≡ plus (minus held a n) up 1 x
        not_up x ne = ground (arith, ne)

    -- The parent has the reference that its child had.
    parent_stays : up ≢ null → rest up ≡ true
    parent_stays ne =
        let in1 = lowered.parent_in a m in
        inside bound c1 mem (minus held a n) lowered a m zero_left not_root up
          (rw (ap (λ (i : Inode). i.parent) here) at
            (no_child bound c1 mem (minus held a n) lowered a m zero_left not_root a m))
          (s.parent_in a m ne)

    parent_has_one : 1 ≤ plus (minus held a n) up 1 up
    parent_has_one = ground arith

    count_down : c.count ≡ suc (unlink a c1).count
    count_down = unlink_count bound c1 mem (minus held a n) lowered a m zero_left not_root

    parent-IsReleased :
        (c2 : Icache)
        → IsReleased bound (unlink a c1) rest (plus (minus held a n) up 1) up 1 c2
        → IsReleased bound c mem held a n (drop_inode a c2)
    parent-IsReleased c2 r =
        dropped-IsReleased c2 r.members
          (held_agree bound c2 r.members (minus (plus (minus held a n) up 1) up 1) (minus held a n)
            (λ x h. back_again x) r.sound)
          r.fewer r.freed (λ x. r.inos x ∙ rest_inos x)
      where
        back_again : (x : ℕ) → minus held a n x ≡ minus (plus (minus held a n) up 1) up 1 x
        back_again x = ground arith

module _ (bound : ℕ) where
  -- In a sound cache, dropping n references that are held to an inode of the cache returns, with more
  -- fuel than there are inodes. It leaves a sound cache with those references dropped. The inode leaves
  -- the cache exactly if its count is then zero and it is neither pinned nor the root. Nothing enters
  -- the cache, and what leaves it is freed.
  pub putref_lem :
      (fuel a n : ℕ) (c : Icache) (mem : ℕ → Bool) (held : ℕ → ℕ)
      → IsSound bound c mem held
      → mem a ≡ true
      → n ≤ held a
      → c.count < fuel
      → (c' : Icache) × (famfs_inode_putref_locked fuel a n c ≡ some c')
        × IsReleased bound c mem held a n c'
  unfolding famfs_inode_putref_locked
  putref_lem zero a n c mem held s m enough fuel_enough = absurd (omega (arith, fuel_enough))
  putref_lem (suc fuel) a n c mem held s m enough fuel_enough =
      let same = ap is_unused (here bound a n c mem held s m enough) in
      let holds = no_assertion bound a n c mem held s m enough in
      elim (Bool-cases (is_unused (after_drop c a n))) [
        | inr used ↦ (
          c1 bound a n c mem held s m enough,
          rw (famfs_inode_putref_locked, holds, same ∙ used) refl,
          kept-IsReleased bound a n c mem held s m enough used,
        )
        | inl unused ↦ elim (Bool-cases ((c.heap a).parent == null)) [
          | inl top ↦ (
            drop_inode a (unlink a (c1 bound a n c mem held s m enough)),
            rw (famfs_inode_putref_locked, holds, same ∙ unused, top) refl,
            orphan-IsReleased bound a n c mem held s m enough unused (ground arith),
          )
          | inr below_ ↦
              let (c2, run, r) =
                putref_lem fuel (c.heap a).parent 1 (unlink a (c1 bound a n c mem held s m enough))
                  (rest bound a n c mem held s m enough unused)
                  (plus (minus held a n) (c.heap a).parent 1)
                  (left_up bound a n c mem held s m enough unused)
                  (parent_stays bound a n c mem held s m enough unused (λ e. absurd (ground arith)))
                  (parent_has_one bound a n c mem held s m enough unused)
                  (omega (arith, count_down bound a n c mem held s m enough unused, fuel_enough)) in
              (
                drop_inode a c2,
                rw (famfs_inode_putref_locked, holds, same ∙ unused, below_, run) refl,
                parent-IsReleased bound a n c mem held s m enough unused c2 r,
              )
        ]
      ]
