-- ===== src/Icache/Insert.antt =====
-- `famfs_icache_insert_locked` of src/famfs_fused_icache.c keeps the invariant.
use famfs.Prelude.{
  ℕ, suc, ◌+◌, ◌<◌, ◌≡◌, ◌≢◌, refl, ◌∙◌, sym, ap, Bool, true, false, ◌==◌, if◌then◌else◌, store,
  arith, Bool-cases, inl, inr,
}
use famfs.Icache.{Inode, Icache, root, null, link, famfs_icache_insert_locked}
use famfs.Icache.Count.{count_below, count_same, count_less, count_none}
use famfs.Icache.Inv.{child_of, IsSound}
use famfs.Icache.Drop.{true_not_false}
use famfs.Icache.Getref.{
  getref_next, getref_prev, getref_parent, getref_ino, getref_cached, getref_live, getref_count,
  getref_refcount,
}

-- A new inode: live, not in the cache, and its parent is.
pub record IsNew (bound : ℕ) (c : Icache) (mem : ℕ → Bool) (a : ℕ) : Type 0 where
  pub outside : mem a ≡ false
  pub some_address : a ≢ null
  pub in_bound : a < bound
  pub alive : c.live a ≡ true
  pub parent_in : (c.heap a).parent ≢ null → mem (c.heap a).parent ≡ true

module _ (bound : ℕ) (c : Icache) (mem : ℕ → Bool) (held : ℕ → ℕ) (a : ℕ)
    (s : IsSound bound c mem held) (f : IsNew bound c mem a) where
  abbrev first : ℕ
  first = (c.heap root).next

  abbrev up : ℕ
  up = (c.heap a).parent

  abbrev heap' : ℕ → Inode
  heap' = (famfs_icache_insert_locked a c).heap

  abbrev mem' : ℕ → Bool
  mem' = store mem a true

  root_not : root ≢ a
  root_not e = true_not_false (sym s.root_in ∙ ap mem e ∙ f.outside)

  member_not : (x : ℕ) → mem x ≡ true → x ≢ a
  member_not x h e = true_not_false (sym h ∙ ap mem e ∙ f.outside)

  up_not : up ≢ a
  up_not e =
      true_not_false (sym (f.parent_in (λ z. f.some_address (sym e ∙ z))) ∙ ap mem e ∙ f.outside)

  link_next :
      (x : ℕ)
      → (link a c.heap x).next
        ≡ (if x == root then a else if x == a then first else (c.heap x).next)
  unfolding link
  link_next x = ground (arith, root_not)

  link_prev :
      (x : ℕ)
      → (link a c.heap x).prev
        ≡ (if x == a then root else if x == first then a else (c.heap x).prev)
  unfolding link
  link_prev x = ground (arith, root_not)

  link_refcount : (x : ℕ) → (link a c.heap x).refcount ≡ (if x == a then 2 else (c.heap x).refcount)
  unfolding link
  link_refcount x = ground (arith, root_not)

  link_parent : (x : ℕ) → (link a c.heap x).parent ≡ (c.heap x).parent
  unfolding link
  link_parent x = ground (arith, root_not)

  link_ino : (x : ℕ) → (link a c.heap x).ino ≡ (c.heap x).ino
  unfolding link
  link_ino x = ground (arith, root_not)

  link_cached : (x : ℕ) → (link a c.heap x).cached ≡ (if x == a then true else (c.heap x).cached)
  unfolding link
  link_cached x = ground (arith, root_not)

  abbrev linked : Icache
  linked = record c { heap = link a c.heap }

  ins_next :
      (x : ℕ)
      → (heap' x).next ≡ (if x == root then a else if x == a then first else (c.heap x).next)
  unfolding famfs_icache_insert_locked
  ins_next x = getref_next (linked.heap a).parent linked x ∙ link_next x

  ins_prev :
      (x : ℕ)
      → (heap' x).prev ≡ (if x == a then root else if x == first then a else (c.heap x).prev)
  unfolding famfs_icache_insert_locked
  ins_prev x = getref_prev (linked.heap a).parent linked x ∙ link_prev x

  ins_parent : (x : ℕ) → (heap' x).parent ≡ (c.heap x).parent
  unfolding famfs_icache_insert_locked
  ins_parent x = getref_parent (linked.heap a).parent linked x ∙ link_parent x

  ins_ino : (x : ℕ) → (heap' x).ino ≡ (c.heap x).ino
  unfolding famfs_icache_insert_locked
  ins_ino x = getref_ino (linked.heap a).parent linked x ∙ link_ino x

  ins_cached : (x : ℕ) → (heap' x).cached ≡ (if x == a then true else (c.heap x).cached)
  unfolding famfs_icache_insert_locked
  ins_cached x = getref_cached (linked.heap a).parent linked x ∙ link_cached x

  ins_live : (famfs_icache_insert_locked a c).live ≡ c.live
  unfolding famfs_icache_insert_locked
  ins_live = getref_live (linked.heap a).parent linked

  ins_count : (famfs_icache_insert_locked a c).count ≡ c.count + 1
  unfolding famfs_icache_insert_locked
  ins_count = ap (λ n. n + 1) (getref_count (linked.heap a).parent linked)

  ins_refcount :
      (x : ℕ)
      → x ≢ null
      → (heap' x).refcount
        ≡ (if x == a then 2 else (c.heap x).refcount) + (if x == up then 1 else 0)
  unfolding famfs_icache_insert_locked
  ins_refcount x ne =
      ground
        (arith, getref_refcount (linked.heap a).parent linked x ne, link_refcount x, link_parent a)

  was_in : (x : ℕ) → mem' x ≡ true → x ≢ a → mem x ≡ true
  was_in x h ne = ground (arith, h, ne)

  is_in : (x : ℕ) → mem x ≡ true → mem' x ≡ true
  is_in x h = ground (arith, h)

  new_in : mem' a ≡ true
  new_in = ground arith

  ins_next_in : (x : ℕ) → mem' x ≡ true → mem' (heap' x).next ≡ true
  ins_next_in x h = rw (ins_next x) (elim (Bool-cases (x == root)) [
    | inl r ↦ rw r new_in
    | inr nr ↦ rw nr (elim (Bool-cases (x == a)) [
      | inl here ↦ rw here (is_in first (s.ring.next_in root s.root_in))
      | inr there_ ↦
          rw there_
            (is_in (c.heap x).next (s.ring.next_in x (was_in x h (λ e. absurd (ground arith)))))
    ])
  ])

  ins_prev_in : (x : ℕ) → mem' x ≡ true → mem' (heap' x).prev ≡ true
  ins_prev_in x h = rw (ins_prev x) (elim (Bool-cases (x == a)) [
    | inl here ↦ rw here (is_in root s.root_in)
    | inr there_ ↦ rw there_ (elim (Bool-cases (x == first)) [
      | inl f_ ↦ rw f_ new_in
      | inr nf ↦
          rw nf (is_in (c.heap x).prev (s.ring.prev_in x (was_in x h (λ e. absurd (ground arith)))))
    ])
  ])

  first_not : first ≢ a
  first_not = member_not first (s.ring.next_in root s.root_in)

  ins_there : (x : ℕ) → mem' x ≡ true → (heap' (heap' x).next).prev ≡ x
  ins_there x h = rw (ins_next x) (elim (Bool-cases (x == root)) [
    | inl r ↦ rw r (ground (arith, ins_prev a))
    | inr nr ↦ rw nr (elim (Bool-cases (x == a)) [
      | inl here ↦ rw here (ground (arith, ins_prev first, first_not))
      | inr there_ ↦
          let mx = was_in x h (λ e. absurd (ground arith)) in
          let y = (c.heap x).next in
          let ya = member_not y (s.ring.next_in x mx) in
          let yf : y ≢ first = λ e. absurd (
            ground (
              arith,
              ap (λ z. (c.heap z).prev) e,
              s.ring.there x mx,
              s.ring.there root s.root_in,
            )) in
          rw there_ (ground (arith, ins_prev y, ya, yf, s.ring.there x mx))
    ])
  ])

  ins_back : (x : ℕ) → mem' x ≡ true → (heap' (heap' x).prev).next ≡ x
  ins_back x h = rw (ins_prev x) (elim (Bool-cases (x == a)) [
    | inl here ↦ rw here (ground (arith, ins_next root))
    | inr there_ ↦ rw there_ (elim (Bool-cases (x == first)) [
      | inl f_ ↦ rw f_ (ground (arith, ins_next a, root_not))
      | inr nf ↦
          let mx = was_in x h (λ e. absurd (ground arith)) in
          let y = (c.heap x).prev in
          let ya = member_not y (s.ring.prev_in x mx) in
          let yr : y ≢ root =
            λ e. absurd (ground (arith, ap (λ z. (c.heap z).next) e, s.ring.back x mx)) in
          rw nf (ground (arith, ins_next y, ya, yr, s.ring.back x mx))
    ])
  ])

  same_child : (q x : ℕ) → x ≢ a → child_of heap' mem' q x ≡ child_of c.heap mem q x
  same_child q x ne = rw (ins_parent x) (ground (arith, ne))

  not_yet : (q : ℕ) → child_of c.heap mem q a ≡ false
  not_yet q = rw (f.outside) refl

  children_of_parent :
      (q : ℕ)
      → q ≡ up
      → count_below (child_of heap' mem' q) bound ≡ suc (count_below (child_of c.heap mem q) bound)
  children_of_parent q e =
      count_less (child_of heap' mem' q) (child_of c.heap mem q) a bound f.in_bound
        (rw (ins_parent a, new_in, e) (ground arith)) (not_yet q) (same_child q)

  children_of_other :
      (q : ℕ)
      → q ≢ up
      → count_below (child_of heap' mem' q) bound ≡ count_below (child_of c.heap mem q) bound
  children_of_other q ne = count_same (child_of heap' mem' q) (child_of c.heap mem q) bound (λ x lt.
      elim (Bool-cases (x == a)) [
        | inl here ↦
            let at : x ≡ a = ground arith in
            let none_ : child_of heap' mem' q a ≡ false =
              rw (ins_parent a, new_in) (ground (arith, ne)) in
            rw at (none_ ∙ sym (not_yet q))
        | inr there_ ↦ same_child q x (λ e. absurd (ground arith))
      ])

  childless : count_below (child_of heap' mem' a) bound ≡ 0
  childless = count_none (child_of heap' mem' a) bound no_child_
    where
      other_ : (x : ℕ) → x ≢ a → child_of c.heap mem a x ≡ false
      other_ x ne = elim (Bool-cases (mem x)) [
        | inr out ↦ rw out refl
        | inl in_ ↦ elim (Bool-cases ((c.heap x).parent == a)) [
          | inr no_ ↦ rw (in_, no_) refl
          | inl yes_ ↦
              let at : (c.heap x).parent ≡ a = ground arith in
              absurd (
                member_not (c.heap x).parent (s.parent_in x in_ (λ z. f.some_address (sym at ∙ z)))
                  at)
        ]
      ]

      no_child_ : (x : ℕ) → child_of heap' mem' a x ≡ false
      no_child_ x = elim (Bool-cases (x == a)) [
        | inl here ↦
            let at : x ≡ a = ground arith in rw (at, ins_parent a, new_in) (ground (arith, up_not))
        | inr there_ ↦
            let ne : x ≢ a = λ e. absurd (ground arith) in same_child a x ne ∙ other_ x ne
      ]

  not_null : (x : ℕ) → mem' x ≡ true → x ≢ null
  not_null x h e = true_not_false (sym h ∙ ap mem' e ∙ null_out)
    where
      null_out : mem' null ≡ false
      null_out = ground (arith, s.no_null, f.some_address)

  ins_refs :
      (x : ℕ)
      → mem' x ≡ true
      → (heap' x).refcount ≡ store held a 2 x + count_below (child_of heap' mem' x) bound
  ins_refs x h = elim (Bool-cases (x == a)) [
    | inl here ↦
        let at : x ≡ a = ground arith in
        rw at (ground (arith, ins_refcount a f.some_address, up_not, childless))
    | inr there_ ↦
        let ne : x ≢ a = λ e. absurd (ground arith) in
        let old = s.refs x (was_in x h ne) in
        elim (Bool-cases (x == up)) [
          | inl above ↦
              let at : x ≡ up = ground arith in
              ground (arith, ins_refcount x (not_null x h), children_of_parent x at, old, ne)
          | inr beside ↦
              let other_ : x ≢ up = λ e. absurd (ground arith) in
              ground (arith, ins_refcount x (not_null x h), children_of_other x other_, old, ne)
        ]
  ]

  -- Inserting a new inode, whose parent is in the cache if it has one, into a sound cache leaves a sound
  -- cache with one member more, to which two references are held; the one that its parent gained is
  -- the child's.
  pub insert-IsSound :
      IsSound bound (famfs_icache_insert_locked a c) (store mem a true) (store held a 2)
  insert-IsSound = record {
    root_in = is_in root s.root_in;
    root_ino = ins_ino root ∙ s.root_ino;
    no_null = ground (arith, s.no_null, f.some_address);
    below = λ x h. elim (Bool-cases (x == a)) [
      | inl here ↦ ground (arith, f.in_bound)
      | inr there_ ↦ s.below x (was_in x h (λ e. absurd (ground arith)))
    ];
    alive = λ x h. rw ins_live (elim (Bool-cases (x == a)) [
      | inl here ↦ let at : x ≡ a = ground arith in rw at (f.alive)
      | inr there_ ↦ s.alive x (was_in x h (λ e. absurd (ground arith)))
    ]);
    in_use = λ x h. ins_cached x ∙ elim (Bool-cases (x == a)) [
      | inl here ↦ rw here refl
      | inr there_ ↦ rw there_ (s.in_use x (was_in x h (λ e. absurd (ground arith))))
    ];
    ring = record {
      next_in = ins_next_in;
      prev_in = ins_prev_in;
      there = ins_there;
      back = ins_back;
    };
    parent_in = λ x h nn. rw (ins_parent x) (elim (Bool-cases (x == a)) [
      | inl here ↦
          let at : x ≡ a = ground arith in
          rw at (is_in up (f.parent_in (rw (ins_parent x, at) at nn)))
      | inr there_ ↦
          is_in (c.heap x).parent
            (s.parent_in x (was_in x h (λ e. absurd (ground arith))) (rw (ins_parent x) at nn))
    ]);
    refs = ins_refs;
    size = omega (
      arith,
      s.size,
      ins_count,
      count_less mem' mem a bound f.in_bound new_in f.outside (λ x ne. ground (arith, ne)),
    );
  }
