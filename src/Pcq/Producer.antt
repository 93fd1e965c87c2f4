-- ===== src/Pcq/Producer.antt =====
-- `pcq_producer_put` of src/pcq_lib.c appends to the queue, or says why not.
use famfs.Prelude.{
  ℕ, ◌+◌, ◌≤◌, ◌<◌, ◌≡◌, ◌⊎◌, Bool, true, false, if◌then◌else◌, Option, some, List, [], ◌∷◌, ◌++◌,
  arith,
}
use famfs.Pcq.{
  Pcq, PcqConsumer, ThreadArg, PutStatus, put_good, put_full_nowait, put_stopped, Wakeup,
  await_room, write_bucket, pcq_producer_put,
}
use famfs.Pcq.Fifo.{IsQueue, contents, full_iff, write_bucket_lem}

module _ (crc32 : ℕ → List ℕ → ℕ) (n : ℕ) (q : Pcq) (c : PcqConsumer) (h : IsQueue crc32 n q c)
    (a : ThreadArg) (payload : List ℕ) (stop : Bool) (later : List (ℕ × Bool)) where
  abbrev put : Option (Pcq × ThreadArg × PutStatus)
  put = pcq_producer_put crc32 q c a payload ((c.consumer_index, stop) ∷ later)

  put_room :
      n + 1 < q.nbuckets
      → put ≡ some (write_bucket crc32 q payload, record a { nsent = a.nsent + 1 }, put_good)
  unfolding pcq_producer_put await_room
  put_room room = ground (arith, full_iff crc32 n q c h, h.magic, h.consumer_magic)

  -- If all buckets but one are in use, and the producer is told to stop or not to wait, then the put
  -- leaves the queue as it was, counts it full, and returns PCQ_PUT_STOPPED or PCQ_PUT_FULL_NOWAIT.
  pub put_full :
      n + 1 ≡ q.nbuckets
      → (stop ≡ true) ⊎ (a.wait ≡ false)
      → put
        ≡ some (q, record a { nfull = a.nfull + 1 }, if stop then put_stopped else put_full_nowait)
  unfolding pcq_producer_put await_room
  put_full full why = ground (arith, full_iff crc32 n q c h, h.magic, h.consumer_magic)

  -- If the queue has room when the producer looks at the consumer's index, then the put returns
  -- PCQ_PUT_GOOD, the payload is the new last message, and the invariant holds of one message more.
  pub put_appends :
      n + 1 < q.nbuckets
      → (put ≡ some (write_bucket crc32 q payload, record a { nsent = a.nsent + 1 }, put_good))
        × IsQueue crc32 (n + 1) (write_bucket crc32 q payload) c
        × (contents crc32 (n + 1) (write_bucket crc32 q payload) c
            ≡ contents crc32 n q c ++ payload ∷ [])
  put_appends room =
      let w = write_bucket_lem crc32 n q c h payload room in (put_room room, w.0, w.1)

-- However long it waits, a call counts a full queue at most once.
pub await_room_once :
    (nb p : ℕ) (wait full : Bool) (nfull : ℕ) (seen : List (ℕ × Bool)) (w : Wakeup PutStatus)
    (m : ℕ)
    → await_room nb p wait full nfull seen ≡ some (w, m)
    → m ≤ nfull + (if full then 0 else 1)
unfolding await_room
await_room_once nb p wait full nfull [] w m e = cc
await_room_once nb p wait full nfull ((i, stop) ∷ later) w m e =
    ground (arith, await_room_once nb p wait true (if full then nfull else nfull + 1) later w m)
