-- ===== src/Pcq/Consumer.antt =====
-- `pcq_consumer_get` of src/pcq_lib.c takes the first message.
use famfs.Prelude.{
  ℕ, suc, ◌+◌, ◌%◌, ◌<◌, ◌≡◌, ◌≢◌, ◌∙◌, ap, ◌==◌, ◌&&◌, Bool-cases, ◌⊎◌, refl, Bool, true, false,
  if◌then◌else◌, Option, some, List, ◌∷◌, u64, arith, inl, inr,
}
use famfs.Pcq.{
  Bucket, Pcq, PcqConsumer, ThreadArg, GetStatus, get_good, get_empty, get_stopped, get_bad_msg,
  await_message, good_crc, read_bucket, pcq_consumer_get,
}
use famfs.Pcq.Fifo.{IsQueue, contents, empty_iff, take_first, first_in_order}

module _ (crc32 : ℕ → List ℕ → ℕ) where
  -- What copying a bucket shows while the cache may be stale: the bucket, or something that fails
  -- its crc; and the bucket at the latest after the second invalidation.
  pub record IsCoherent (bucket : Bucket) (reads : ℕ → Bucket) : Type 0 where
    pub first : (good_crc crc32 (reads 0) ≡ false) ⊎ (reads 0 ≡ bucket)
    pub second : (good_crc crc32 (reads 1) ≡ false) ⊎ (reads 1 ≡ bucket)
    pub third : reads 2 ≡ bucket

  read_bucket_lem :
      (bucket : Bucket) (reads : ℕ → Bucket)
      → good_crc crc32 bucket ≡ true
      → IsCoherent bucket reads
      → (retried : Bool) × (read_bucket crc32 reads ≡ (bucket, true, retried))
  unfolding read_bucket
  read_bucket_lem bucket reads good co = elim (co.first) [
    | inr e ↦ (false, rw (e, good) refl)
    | inl bad ↦ elim (co.second) [
      | inr e ↦ (true, rw (bad, e, good) refl)
      | inl bad2 ↦ (true, rw (bad, bad2, co.third, good) refl)
    ]
  ]

module _ (crc32 : ℕ → List ℕ → ℕ) (n : ℕ) (q : Pcq) (c : PcqConsumer) (h : IsQueue crc32 n q c)
    (a : ThreadArg) (stop : Bool) (later : List (ℕ × Bool)) (reads : ℕ → Bucket) where
  abbrev get : Option (PcqConsumer × ThreadArg × GetStatus × Bucket)
  get = pcq_consumer_get crc32 q c a ((q.producer_index, stop) ∷ later) reads

  abbrev bucket : Bucket
  bucket = q.buckets c.consumer_index

  abbrev next : PcqConsumer
  next = record c {
    consumer_index = (c.consumer_index + 1) % q.nbuckets;
    consumer_seq = u64 (c.consumer_seq + 1);
  }

  abbrev received_as : Bool → ThreadArg
  received_as retried = record a {
    retries = if retried then a.retries + 1 else a.retries;
    nreceived = a.nreceived + 1;
  }

  get_message :
      0 < n
      → IsCoherent crc32 bucket reads
      → (a' : ThreadArg) × (get ≡ some (next, a', get_good, bucket))
        × (a'.nreceived ≡ a.nreceived + 1)
        × (a'.nerrors ≡ a.nerrors)
  unfolding pcq_consumer_get await_message
  get_message pos co =
      let (good, seq) = first_in_order crc32 n q c h pos in
      let (retried, read) = read_bucket_lem crc32 bucket reads good co in
      (
        record a {
          retries = if retried then a.retries + 1 else a.retries;
          nreceived = a.nreceived + 1;
        },
        ground (arith, h.magic, h.consumer_magic, empty_iff crc32 n q c h, read, seq),
        refl,
        refl,
      )

  -- If there is no message, and the consumer is told to stop or not to wait, then the get leaves the
  -- queue as it was, counts it empty, and returns PCQ_GET_STOPPED or PCQ_GET_EMPTY.
  pub get_none :
      n ≡ 0
      → (stop ≡ true) ⊎ (a.wait ≡ false)
      → get
        ≡ some (
          c,
          record a { nempty = a.nempty + 1 },
          if stop then get_stopped else get_empty,
          reads 0,
        )
  unfolding pcq_consumer_get await_message
  get_none none_left why = ground (arith, h.magic, h.consumer_magic, empty_iff crc32 n q c h)

  -- A copy of the first bucket that the cache may show: the bucket, or one that is torn or of another
  -- turn of the ring: its crc is wrong, or its sequence number is not the one that is expected.
  abbrev pub MayShow : Bucket → Type 0
  MayShow b = (b ≡ bucket) ⊎ (good_crc crc32 b ≡ false) ⊎ (b.seq ≢ c.consumer_seq)

  -- One of the copies, with whether its crc is good
  read_cases :
      (k : ℕ) × (retried : Bool) × (read_bucket crc32 reads
        ≡ (reads k, good_crc crc32 (reads k), retried))
  unfolding read_bucket
  read_cases = elim (Bool-cases (good_crc crc32 (reads 0))) [
    | inl good ↦ (0, false, rw good refl)
    | inr bad ↦ elim (Bool-cases (good_crc crc32 (reads 1))) [
      | inl good ↦ (1, true, rw (bad, good) refl)
      | inr bad1 ↦ elim (Bool-cases (good_crc crc32 (reads 2))) [
        | inl good ↦ (2, true, rw (bad, bad1, good) refl)
        | inr bad2 ↦ (2, true, rw (bad, bad1, bad2) refl)
      ]
    ]
  ]

  -- The first message is taken.
  abbrev pub Taken : ℕ → Type 0
  Taken m =
      (a' : ThreadArg) × (get ≡ some (next, a', get_good, bucket))
      × (a'.nreceived ≡ a.nreceived + 1)
      × (a'.nerrors ≡ a.nerrors)
      × IsQueue crc32 m q next
      × (contents crc32 n q c ≡ bucket.payload ∷ contents crc32 m q next)

  -- What the consumer is left with where the process exits.
  pub record Stopped (r : Option (PcqConsumer × ThreadArg × GetStatus × Bucket)) : Type 0 where
    pub k : ℕ
    pub arg : ThreadArg
    pub returns :
        r ≡ some (record c { consumer_seq = u64 (c.consumer_seq + 1) }, arg, get_bad_msg, reads k)
    pub stopped : arg.stop_now ≡ true
    pub counted : arg.nerrors ≡ a.nerrors + 1
    pub not_received : arg.nreceived ≡ a.nreceived
    pub not_first : reads k ≢ bucket

  -- If there is a message when the consumer looks at the producer's index, and each copy of its bucket
  -- that it may read is the bucket, or fails its crc, or has not the sequence number that is expected,
  -- then the get never takes anything but the first message. Either it returns PCQ_GET_GOOD with that
  -- message, and the others stay, in order, and the invariant holds; or the copy that it was left with
  -- was another one, and it stops with an error counted, before the exit of the process, with the
  -- index of the consumer where it was. It does take the message if the copies that are not the bucket
  -- fail their crc and the third is the bucket.
  pub get_first :
      (m : ℕ)
      → n ≡ suc m
      → ((k : ℕ) → MayShow (reads k))
      → (Taken m ⊎ Stopped get) × (IsCoherent crc32 bucket reads → Taken m)
  unfolding pcq_consumer_get await_message
  get_first m e shows =
      let rest = take_first crc32 n q c h m e in
      let some_message : 0 < n = omega arith in
      let good_first = first_in_order crc32 n q c h some_message in
      let (k, retried, read) = read_cases in
      (
        elim (Bool-cases (good_crc crc32 (reads k) && (reads k).seq == c.consumer_seq)) [
          | inl yes_ ↦
              let same : reads k ≡ bucket = elim (shows k) [
                | inl s ↦ s
                | inr (inl torn) ↦ absurd (ground (arith, torn, yes_))
                | inr (inr old) ↦ absurd (ground (arith, old, yes_))
              ] in
              inl (
                received_as retried,
                (let whole : get ≡ some (next, received_as retried, get_good, reads k) =
                      ground
                        (arith, h.magic, h.consumer_magic, empty_iff crc32 n q c h, read, yes_) in
                    whole ∙ ap (λ b. some (next, received_as retried, get_good, b)) same),
                refl,
                refl,
                rest.0,
                rest.1,
              )
          | inr no_ ↦ inr (record {
            k = k;
            arg = record a {
              retries = if retried then a.retries + 1 else a.retries;
              stop_now = true;
              nerrors = a.nerrors + 1;
            };
            returns = ground (arith, h.magic, h.consumer_magic, empty_iff crc32 n q c h, read, no_);
            stopped = refl;
            counted = refl;
            not_received = refl;
            not_first = λ s.
                let both : (good_crc crc32 bucket && bucket.seq == c.consumer_seq) ≡ false =
                  rw s at no_ in
                ground (arith, both, good_first.0, good_first.1);
          })
        ],
        λ co.
            let (a', ret, received, errors) = get_message some_message co in
            (a', ret, received, errors, rest.0, rest.1),
      )
