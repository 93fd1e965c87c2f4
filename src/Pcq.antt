-- ===== src/Pcq.antt =====
-- The producer/consumer queue of src/pcq.h and src/pcq_lib.c: a ring of buckets in shared memory,
-- which one producer fills and one consumer empties.
pub mod Fifo
pub mod Producer
pub mod Consumer
pub mod Create
use famfs.Prelude.{
  ℕ, zero, suc, ◌+◌, ◌-◌, ◌%◌, Bool, true, false, ◌&&◌, ◌||◌, not, ◌==◌, ltb, leb, if◌then◌else◌,
  Option, none, some, List, [], ◌∷◌, ◌++◌, u64, store, ◌>>=◌, ◌>>◌, assert,
}
use famfs.Meta.{le_bytes}

-- What a bucket holds: the payload, then the sequence number, then the crc of both.
pub record Bucket : Type 0 where
  pub payload : List ℕ
  pub seq : ℕ
  pub crc : ℕ

-- `struct pcq`, which the producer writes
pub record Pcq : Type 0 where
  pub pcq_magic : ℕ
  pub nbuckets : ℕ
  pub bucket_size : ℕ
  pub bucket_array_offset : ℕ
  pub pcq_size : ℕ
  pub producer_index : ℕ
  pub next_seq : ℕ
  pub buckets : ℕ → Bucket

-- `struct pcq_consumer`, which the consumer writes
pub record PcqConsumer : Type 0 where
  pub pcq_consumer_magic : ℕ
  pub consumer_index : ℕ
  pub consumer_seq : ℕ
  pub pcqc_size : ℕ

-- The fields of `struct pcq_thread_arg` that putting and getting use.
pub record ThreadArg : Type 0 where
  pub wait : Bool
  pub stop_now : Bool
  pub nsent : ℕ
  pub nreceived : ℕ
  pub nerrors : ℕ
  pub nfull : ℕ
  pub nempty : ℕ
  pub retries : ℕ

abbrev pub pcq_magic_number : ℕ
pcq_magic_number = 0xBEEBEE3

abbrev pub pcq_consumer_magic_number : ℕ
pcq_consumer_magic_number = 0xBEEBEE4

pub data PutStatus : Type 0 where
  put_good put_full_nowait put_stopped : PutStatus

-- `get_bad_msg` is where the process exits.
pub data GetStatus : Type 0 where
  get_good get_empty get_stopped get_bad_msg : GetStatus

pub pcq_valid : Pcq → PcqConsumer → Bool
pcq_valid q c =
    q.pcq_magic == pcq_magic_number
    && c.pcq_consumer_magic == pcq_consumer_magic_number
    && ltb q.producer_index q.nbuckets
    && ltb c.consumer_index q.nbuckets

pub pcq_nmessages : Pcq → PcqConsumer → ℕ
pcq_nmessages q c =
    let pidx = q.producer_index in
    let cidx = c.consumer_index in
    if pidx == cidx then 0 else (if ltb pidx cidx then u64 (pidx + q.nbuckets) else pidx) - cidx

-- The end of a waiting loop: proceed, or return a status.
pub data Wakeup (S : Type 0) : Type 0 where
  proceed : Wakeup S
  give_up : S → Wakeup S

-- The producer's loop. Each round sees a consumer index and a stop flag; `none` is a loop that
-- still waits when the list ends. `full` is the flag that counts a full queue once a call.
unfoldable pub await_room :
    ℕ → ℕ → Bool → Bool → ℕ → List (ℕ × Bool) → Option (Wakeup PutStatus × ℕ)
await_room nbuckets put_index wait full nfull [] = none
await_room nbuckets put_index wait full nfull ((consumer_index, stop_now) ∷ later) =
    let counted = if full then nfull else nfull + 1 in
    let rest = await_room nbuckets put_index wait true counted later in
    if not ((put_index + 1) % nbuckets == consumer_index)
    then some (proceed, nfull)
    else if stop_now
    then some (give_up put_stopped, counted)
    else if wait
    then rest
    else some (give_up put_full_nowait, counted)

-- The consumer's loop; each round sees a producer index and a stop flag.
pub await_message : ℕ → Bool → Bool → ℕ → List (ℕ × Bool) → Option (Wakeup GetStatus × ℕ)
await_message get_index wait empty nempty [] = none
await_message get_index wait empty nempty ((producer_index, stop_now) ∷ later) =
    let counted = if empty then nempty else nempty + 1 in
    let rest = await_message get_index wait true counted later in
    if not (get_index == producer_index)
    then some (proceed, nempty)
    else if stop_now
    then some (give_up get_stopped, counted)
    else if wait
    then rest
    else some (give_up get_empty, counted)

-- zlib's `crc32`
module _ (crc32 : ℕ → List ℕ → ℕ) where
  unfoldable pub bucket_crc : List ℕ → ℕ → ℕ
  bucket_crc payload seq = crc32 (crc32 0 []) (payload ++ le_bytes 8 seq)

  pub write_bucket : Pcq → List ℕ → Pcq
  write_bucket q payload =
      let put_index = q.producer_index in
      record q {
        next_seq = u64 (q.next_seq + 1);
        buckets =
            store q.buckets put_index
              (record { payload = payload; seq = q.next_seq; crc = bucket_crc payload q.next_seq });
        producer_index = (put_index + 1) % q.nbuckets;
      }

  -- `none`: a magic number is wrong, or the producer still waits when the observations end.
  pub pcq_producer_put :
      Pcq
      → PcqConsumer
      → ThreadArg
      → List ℕ
      → List (ℕ × Bool)
      → Option (Pcq × ThreadArg × PutStatus)
  pcq_producer_put q c a payload seen = do
    assert (q.pcq_magic == pcq_magic_number)
    assert (c.pcq_consumer_magic == pcq_consumer_magic_number)
    elim (await_room q.nbuckets q.producer_index a.wait false a.nfull seen) [
      | none ↦ none
      | some (woken, nfull) ↦ elim woken [
        | proceed ↦
            some (write_bucket q payload, record a { nfull = nfull; nsent = a.nsent + 1 }, put_good)
        | give_up status ↦ some (q, record a { nfull = nfull }, status)
      ]
    ]

  unfoldable pub good_crc : Bucket → Bool
  good_crc b = bucket_crc b.payload b.seq == b.crc

  -- The retry loop: `reads k` is what copying the bucket the k-th time shows; it is copied at most
  -- CONSUMER_NRETRIES + 1 times. The result is the last copy, whether its crc is good, and whether
  -- a retry was needed.
  pub read_bucket : (ℕ → Bucket) → Bucket × Bool × Bool
  read_bucket reads =
      if good_crc (reads 0)
      then (reads 0, true, false)
      else if good_crc (reads 1)
      then (reads 1, true, true)
      else if good_crc (reads 2)
      then (reads 2, true, true)
      else (reads 2, false, true)

  -- The result holds the entry that is returned. `none` is as above.
  pub pcq_consumer_get :
      Pcq
      → PcqConsumer
      → ThreadArg
      → List (ℕ × Bool)
      → (ℕ → Bucket)
      → Option (PcqConsumer × ThreadArg × GetStatus × Bucket)
  pcq_consumer_get q c a seen reads = do
    assert (q.pcq_magic == pcq_magic_number)
    assert (c.pcq_consumer_magic == pcq_consumer_magic_number)
    elim (await_message c.consumer_index a.wait false a.nempty seen) [
      | none ↦ none
      | some (woken, nempty) ↦ elim woken [
        | give_up status ↦ some (c, record a { nempty = nempty }, status, reads 0)
        | proceed ↦
            let (entry, good, retried) = read_bucket reads in
            let c' = record c { consumer_seq = u64 (c.consumer_seq + 1) } in
            let a' = record a {
              nempty = nempty;
              retries = if retried then a.retries + 1 else a.retries;
            } in
            if good && entry.seq == c.consumer_seq
            then some (
              record c' { consumer_index = (c.consumer_index + 1) % q.nbuckets },
              record a' { nreceived = a.nreceived + 1 },
              get_good,
              entry,
            )
            else some
                (c', record a' { stop_now = true; nerrors = a.nerrors + 1 }, get_bad_msg, entry)
      ]
    ]
