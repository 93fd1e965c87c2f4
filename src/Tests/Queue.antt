-- ===== src/Tests/Queue.antt =====
-- A queue of four buckets whose indices have gone round once.
use famfs.Prelude.{
  ℕ, ◌+◌, ◌%◌, ◌<◌, ◌≡◌, ◌⊎◌, Bool-cases, inl, inr, refl, true, false, some, arith, ◌==◌,
  if◌then◌else◌, [], ◌∷◌, ◌++◌,
}
use famfs.Tests.Samples.{crc_of}
use famfs.Pcq.{
  Bucket, Pcq, PcqConsumer, ThreadArg, put_good, put_stopped, give_up, pcq_magic_number,
  pcq_consumer_magic_number, bucket_crc, good_crc, await_room, write_bucket, pcq_producer_put,
  pcq_consumer_get,
}
use famfs.Pcq.{pcq_valid, pcq_nmessages}
use famfs.Pcq.Fifo.{IsQueue, contents, nmessages_lem}
use famfs.Pcq.Producer.{put_appends}
use famfs.Pcq.Consumer.{IsCoherent, MayShow, Taken, Stopped, get_first}

abbrev bucket_for : ℕ → ℕ → Bucket
bucket_for seq b = record { payload = b ∷ []; seq = seq; crc = bucket_crc crc_of (b ∷ []) seq }

-- Bucket 3 holds message 7 if any; the next goes to bucket 0.
abbrev ring : ℕ → ℕ → Pcq
ring n p = record {
  pcq_magic = pcq_magic_number;
  nbuckets = 4;
  bucket_size = 1024;
  bucket_array_offset = 0x200000;
  pcq_size = 0x201000;
  producer_index = p;
  next_seq = 7 + n;
  buckets =
      λ i. if i == 3 then bucket_for 7 30 else if i == 0 then bucket_for 8 40 else bucket_for 9 50;
}

abbrev reader : PcqConsumer
reader = record {
  pcq_consumer_magic = pcq_consumer_magic_number;
  consumer_index = 3;
  consumer_seq = 7;
  pcqc_size = 0x200000;
}

abbrev no_wait : ThreadArg
no_wait = record {
  wait = false;
  stop_now = false;
  nsent = 0;
  nreceived = 0;
  nerrors = 0;
  nfull = 0;
  nempty = 0;
  retries = 0;
}

ring-IsQueue : (n p : ℕ) → n < 4 → p ≡ (3 + n) % 4 → IsQueue crc_of n (ring n p) reader
unfolding good_crc
ring-IsQueue n p room at = record {
  magic = refl;
  consumer_magic = refl;
  small = omega arith;
  room = room;
  consumer_in = omega arith;
  producer_at = at;
  seq = omega arith;
  seq_word = omega arith;
  whole = λ k hk. ground arith;
  in_order = λ k hk. ground arith;
}

abbrev in_order : IsQueue crc_of 2 (ring 2 1) reader
in_order = ring-IsQueue 2 1 (omega arith) refl

put_appends_example :
    let q' = write_bucket crc_of (ring 2 1) (60 ∷ []) in
    (pcq_producer_put crc_of (ring 2 1) reader no_wait (60 ∷ []) ((3, false) ∷ [])
      ≡ some (q', record no_wait { nsent = 1 }, put_good))
    × IsQueue crc_of 3 q' reader
    × (contents crc_of 3 q' reader ≡ contents crc_of 2 (ring 2 1) reader ++ (60 ∷ []) ∷ [])
put_appends_example =
    put_appends crc_of 2 (ring 2 1) reader (ring-IsQueue 2 1 (omega arith) refl) no_wait (60 ∷ [])
      false [] (omega arith)

stopped : await_room 4 2 true false 0 ((3, false) ∷ (3, true) ∷ []) ≡ some (give_up put_stopped, 1)
unfolding await_room
stopped = refl

-- The first copy is the message of the turn before, which the cache still holds.
abbrev stale : ℕ → Bucket
stale k = if k == 0 then bucket_for 3 20 else bucket_for 7 30

stale-MayShow :
    (k : ℕ) → MayShow crc_of 2 (ring 2 1) reader in_order no_wait false [] stale (stale k)
stale-MayShow k = elim (Bool-cases (k == 0)) [
  | inl yes_ ↦ rw yes_ (inr (inr (omega arith)))
  | inr no_ ↦ rw no_ (inl refl)
]

get_first_example :
    (Taken crc_of 2 (ring 2 1) reader in_order no_wait false [] stale 1
      ⊎ Stopped crc_of 2
          (ring 2 1)
          reader
          in_order
          no_wait
          false
          []
          stale
          (pcq_consumer_get crc_of (ring 2 1) reader no_wait ((1, false) ∷ []) stale))
    × (IsCoherent crc_of (bucket_for 7 30) stale
        → Taken crc_of 2 (ring 2 1) reader in_order no_wait false [] stale 1)
get_first_example =
    get_first crc_of 2 (ring 2 1) reader in_order no_wait false [] stale 1 refl stale-MayShow

nmessages_lem_example : (pcq_valid (ring 2 1) reader ≡ true) × (pcq_nmessages (ring 2 1) reader ≡ 2)
nmessages_lem_example = nmessages_lem crc_of 2 (ring 2 1) reader in_order
