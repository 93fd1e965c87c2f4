-- ===== src/Pcq/Fifo.antt =====
-- The ring of buckets as a first-in, first-out queue of payloads.
use native.Mathlib.Nat.{mod-add-mod, mod-eq_of_lt, mod-eq-sub-mod}
use native.Mathlib.Decide.{dec_lt}
use mathlib.Core.Path.{ap₂}
use famfs.Prelude.{
  ℕ, zero, suc, ◌+◌, ◌-◌, ◌%◌, ◌^◌, ◌<◌, ◌≡◌, ◌≢◌, refl, ◌∙◌, ap, sym, true, ◌==◌, ltb,
  if◌then◌else◌, List, [], ◌∷◌, ◌++◌, u64, store, arith,
}
use famfs.Pcq.{
  Bucket, Pcq, PcqConsumer, pcq_magic_number, pcq_consumer_magic_number, pcq_valid, pcq_nmessages,
  write_bucket, good_crc,
}

-- The payloads in the `n` buckets from bucket `c + k` on, going round at `nb`.
pub messages : (ℕ → Bucket) → ℕ → ℕ → ℕ → ℕ → List (List ℕ)
messages buckets nb c zero k = []
messages buckets nb c (suc n) k = (buckets ((c + k) % nb)).payload ∷ messages buckets nb c n (k + 1)

pub messages_none : (b : ℕ → Bucket) (nb c : ℕ) → messages b nb c 0 0 ≡ []
unfolding messages
messages_none b nb c = refl

-- The bucket number k places behind c, for k below the size.
slot_eq :
    (nb c k : ℕ) → c < nb → k < nb → (c + k) % nb ≡ (if ltb (c + k) nb then c + k else c + k - nb)
slot_eq nb c k hc hk = elim (dec_lt (c + k) nb) [
  | yes p ↦ ground (arith, mod-eq_of_lt p)
  | no p ↦
      let wrapped = mod-eq-sub-mod {n = c + k} {m = nb} (omega arith) in
      let below : c + k - nb < nb = omega arith in ground (arith, wrapped, mod-eq_of_lt below)
]

slot_ne : (nb c k n : ℕ) → c < nb → k < n → n < nb → (c + k) % nb ≢ (c + n) % nb
slot_ne nb c k n hc hk hn e = ground (arith, slot_eq nb c k hc (omega arith), slot_eq nb c n hc hn)

pub slot-lt : (nb c k : ℕ) → c < nb → (c + k) % nb < nb
slot-lt nb c k h = omega arith

next_slot : (nb c n : ℕ) {p : ℕ} → p ≡ (c + n) % nb → (p + 1) % nb ≡ (c + (n + 1)) % nb
next_slot nb c n e = rw (e, mod-add-mod) (ap (λ t. t % nb) (omega arith))

whole_turn : (nb c k : ℕ) → c < nb → k ≡ nb → (c + k) % nb ≡ c
whole_turn nb c k h e = rw e (mod_turn nb c h)
  where
    mod_turn : (nb c : ℕ) → c < nb → (c + nb) % nb ≡ c
    mod_turn nb c h = grind arith

-- A store behind the last of the `n` buckets appends a message.
messages-store :
    (b : ℕ → Bucket) (v : Bucket) (nb c p n k : ℕ)
    → c < nb
    → k + n < nb
    → p ≡ (c + (k + n)) % nb
    → messages (store b p v) nb c (suc n) k ≡ messages b nb c n k ++ v.payload ∷ []
unfolding messages
messages-store b v nb c p zero k hc hn e =
    let at : p ≡ (c + k) % nb = e ∙ ap (λ t. (c + t) % nb) (omega arith) in
    let here : (store b p v ((c + k) % nb)).payload ≡ v.payload = ground arith in
    ap (λ t. t ∷ []) here
messages-store b v nb c p (suc n) k hc hn e =
    let ne : (c + k) % nb ≢ p = rw e (slot_ne nb c k (k + suc n) hc (omega arith) hn) in
    let here : (store b p v ((c + k) % nb)).payload ≡ (b ((c + k) % nb)).payload = ground arith in
    let at : p ≡ (c + (k + 1 + n)) % nb = e ∙ ap (λ t. (c + t) % nb) (omega arith) in
    ap₂ ◌∷◌ here (messages-store b v nb c p n (k + 1) hc (omega arith) at)

-- Dropping the first message is starting one bucket later.
messages-shift :
    (b : ℕ → Bucket) (nb c n k : ℕ) → messages b nb c n (k + 1) ≡ messages b nb ((c + 1) % nb) n k
unfolding messages
messages-shift b nb c zero k = refl
messages-shift b nb c (suc n) k =
    let e : (c + (k + 1)) % nb ≡ ((c + 1) % nb + k) % nb =
      rw mod-add-mod (ap (λ t. t % nb) (omega arith)) in
    rw (e, messages-shift b nb c n (k + 1))

-- The invariant of a queue with `n` messages: the indices are in range, the sequence numbers in
-- step, and each bucket in use is whole and has the number that the consumer expects.
module _ (crc32 : ℕ → List ℕ → ℕ) where
  pub record IsQueue (n : ℕ) (q : Pcq) (c : PcqConsumer) : Type 0 where
    pub magic : q.pcq_magic ≡ pcq_magic_number
    pub consumer_magic : c.pcq_consumer_magic ≡ pcq_consumer_magic_number
    pub small : q.nbuckets < 2 ^ 63
    pub room : n < q.nbuckets
    pub consumer_in : c.consumer_index < q.nbuckets
    pub producer_at : q.producer_index ≡ (c.consumer_index + n) % q.nbuckets
    pub seq : q.next_seq ≡ u64 (c.consumer_seq + n)
    pub seq_word : c.consumer_seq < 2 ^ 64
    pub whole :
        (k : ℕ) → k < n → good_crc crc32 (q.buckets ((c.consumer_index + k) % q.nbuckets)) ≡ true
    pub in_order :
        (k : ℕ)
        → k < n
        → (q.buckets ((c.consumer_index + k) % q.nbuckets)).seq ≡ u64 (c.consumer_seq + k)

  abbrev pub contents : ℕ → Pcq → PcqConsumer → List (List ℕ)
  contents n q c = messages q.buckets q.nbuckets c.consumer_index n 0

  module _ (n : ℕ) (q : Pcq) (c : PcqConsumer) (h : IsQueue n q c) where
    -- In a queue that keeps its invariant, `pcq_valid` accepts the two files and `pcq_nmessages` is
    -- the number of messages in it.
    pub nmessages_lem : (pcq_valid q c ≡ true) × (pcq_nmessages q c ≡ n)
    unfolding pcq_valid pcq_nmessages
    nmessages_lem =
        let at = slot_eq q.nbuckets c.consumer_index n h.consumer_in h.room in
        (
          ground (arith, h.magic, h.consumer_magic, h.consumer_in, h.room, h.producer_at, at),
          ground (arith, h.consumer_in, h.room, h.producer_at, h.small, at),
        )

    -- The producer sees a full queue exactly if all buckets but one are in use.
    pub full_iff : ((q.producer_index + 1) % q.nbuckets == c.consumer_index) ≡ (n + 1 == q.nbuckets)
    full_iff =
        let nb = q.nbuckets in
        let i = c.consumer_index in
        let next : (q.producer_index + 1) % nb ≡ (i + (n + 1)) % nb =
          next_slot nb i n h.producer_at in
        elim (dec_lt (n + 1) nb) [
          | yes p ↦ ground (arith, next, slot_eq nb i (n + 1) h.consumer_in p)
          | no p ↦
              let e : n + 1 ≡ nb = omega (arith, h.room) in
              let round : (i + (n + 1)) % nb ≡ i = whole_turn nb i (n + 1) h.consumer_in e in
              ground (arith, next, round)
        ]

    -- What is put behind the last message is appended, and the invariant holds of one message more.
    pub write_bucket_lem :
        (payload : List ℕ)
        → n + 1 < q.nbuckets
        → IsQueue (n + 1) (write_bucket crc32 q payload) c
          × (contents (n + 1) (write_bucket crc32 q payload) c ≡ contents n q c ++ payload ∷ [])
    unfolding write_bucket good_crc
    write_bucket_lem payload room =
        let nb = q.nbuckets in
        let i = c.consumer_index in
        let apart = λ (k : ℕ) (hk : k < n).
          let ne : (i + k) % nb ≢ q.producer_index =
            rw h.producer_at (slot_ne nb i k n h.consumer_in hk h.room) in
          ne in
        (
          record {
            magic = h.magic;
            consumer_magic = h.consumer_magic;
            small = h.small;
            room = room;
            consumer_in = h.consumer_in;
            producer_at = next_slot nb i n h.producer_at;
            seq = omega (arith, h.seq, h.seq_word);
            seq_word = h.seq_word;
            whole = λ k hk. elim (dec_lt k n) [
              | yes p ↦ ground (arith, apart k p, h.whole k p)
              | no p ↦ let e : k ≡ n = omega arith in rw (e, ← h.producer_at) (ground arith)
            ];
            in_order = λ k hk. elim (dec_lt k n) [
              | yes p ↦ ground (arith, apart k p, h.in_order k p)
              | no p ↦
                  let e : k ≡ n = omega arith in rw (e, ← h.producer_at) (ground (arith, h.seq))
            ];
          },
          (let one_more : n + 1 ≡ suc n = omega arith in
              rw one_more (
                messages-store q.buckets _ nb i q.producer_index n 0 h.consumer_in
                  (omega (arith, h.room)) (h.producer_at ∙ ap (λ t. (i + t) % nb) (omega arith)))),
        )

    -- Taking the first message leaves the rest, with the invariant of one message less.
    pub take_first :
        (m : ℕ)
        → n ≡ suc m
        → let c' = record c {
          consumer_index = (c.consumer_index + 1) % q.nbuckets;
          consumer_seq = u64 (c.consumer_seq + 1);
        } in
          IsQueue m q c' × (contents n q c ≡ (q.buckets c.consumer_index).payload ∷ contents m q c')
    unfolding messages
    take_first m e =
        let nb = q.nbuckets in
        let i = c.consumer_index in
        let slot = λ (k : ℕ).
          let s : ((i + 1) % nb + k) % nb ≡ (i + (k + 1)) % nb =
            rw mod-add-mod (ap (λ t. t % nb) (omega arith)) in
          s in
        let first : (i + 0) % nb ≡ i = ground (arith, slot_eq nb i 0 h.consumer_in) in
        (
          record {
            magic = h.magic;
            consumer_magic = h.consumer_magic;
            small = h.small;
            room = omega (arith, h.room);
            consumer_in = omega (arith, h.consumer_in);
            producer_at = h.producer_at ∙ ap (λ t. (i + t) % nb) (omega arith) ∙ sym (slot m);
            seq = omega (arith, h.seq);
            seq_word = omega arith;
            whole = λ k hk. rw (slot k) (h.whole (k + 1) (omega arith));
            in_order = λ k hk. rw (slot k) (omega (arith, h.in_order (k + 1) (omega arith)));
          },
          rw (e, first) (ap (λ t. (q.buckets i).payload ∷ t) (messages-shift q.buckets nb i m 0)),
        )

    pub first_in_order :
        0 < n
        → (good_crc crc32 (q.buckets c.consumer_index) ≡ true)
          × ((q.buckets c.consumer_index).seq ≡ c.consumer_seq)
    first_in_order pos =
        let first : (c.consumer_index + 0) % q.nbuckets ≡ c.consumer_index =
          ground (arith, slot_eq q.nbuckets c.consumer_index 0 h.consumer_in) in
        (rw first at (h.whole 0 pos), rw first at (h.in_order 0 pos) ∙ word)
      where
        word : u64 (c.consumer_seq + 0) ≡ c.consumer_seq
        word = omega (arith, h.seq_word)

    -- The consumer sees an empty queue exactly if there is no message.
    pub empty_iff : (c.consumer_index == q.producer_index) ≡ (n == 0)
    empty_iff =
        ground (arith, h.producer_at, h.consumer_in, h.room, slot_eq q.nbuckets c.consumer_index n)
