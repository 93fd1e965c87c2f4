-- ===== src/Pcq/Create.antt =====
-- `pcq_create` of src/pcq_lib.c: the two files of a new queue. Messages, and the flush of the
-- processor cache after each header, are left out.
use famfs.Prelude.{
  ℕ, ◌+◌, ◌*◌, Bool, true, false, ◌||◌, not, ◌==◌, if◌then◌else◌, Option, none, some, List, ◌++◌,
  bit_and, sub64, u64,
}
use famfs.Prelude.Text.{codes}
use famfs.Meta.{Rc}
use famfs.Pcq.{Pcq, PcqConsumer, pcq_magic_number, pcq_consumer_magic_number}

-- Files as the library offers them: `make` is famfs_mkfile and the close of its descriptor, and the
-- `map` functions are famfs_mmap_whole_file, which gives what the file holds, and its size; `set`
-- is a store through the mapping.
pub record QueueHost : Type 1 where
  pub State : Type 0
  pub exists : State → List ℕ → Bool
  pub make : State → List ℕ → ℕ → State × Bool
  pub map_consumer : State → List ℕ → Option (PcqConsumer × ℕ)
  pub map_producer : State → List ℕ → Option (Pcq × ℕ)
  pub set_consumer : State → List ℕ → PcqConsumer → State
  pub set_producer : State → List ℕ → Pcq → State

abbrev pub two_mb : ℕ
two_mb = 0x200000

unfoldable pub pcq_consumer_fname : List ℕ → List ℕ
pcq_consumer_fname basename = basename ++ codes ".consumer"

-- The stores to the headers. What the buckets hold is kept.
unfoldable pub new_consumer : ℕ → PcqConsumer
new_consumer csz = record {
  pcq_consumer_magic = pcq_consumer_magic_number;
  consumer_index = 0;
  consumer_seq = 0;
  pcqc_size = csz;
}

unfoldable pub new_queue : ℕ → ℕ → ℕ → Pcq → Pcq
new_queue nbuckets bucket_size psz q = record q {
  pcq_magic = pcq_magic_number;
  nbuckets = nbuckets;
  bucket_size = bucket_size;
  bucket_array_offset = two_mb;
  producer_index = 0;
  next_seq = 0;
  pcq_size = psz;
}

module _ (H : QueueHost) where
  open H use {State, exists, make, map_consumer, map_producer, set_consumer, set_producer}

  -- From here on every way out returns 0.
  unfoldable pub producer_made : List ℕ → ℕ → ℕ → State × Bool → State
  producer_made fname nbuckets bucket_size (s, false) = s
  producer_made fname nbuckets bucket_size (s, true) = elim (map_producer s fname) [
    | none ↦ s
    | some (q, psz) ↦ set_producer s fname (new_queue nbuckets bucket_size psz q)
  ]

  unfoldable pub consumer_made : List ℕ → ℕ → ℕ → ℕ → State × Bool → State
  consumer_made fname nbuckets bucket_size size (s, false) = s
  consumer_made fname nbuckets bucket_size size (s, true) =
      let cname = pcq_consumer_fname fname in
      elim (map_consumer s cname) [
        | none ↦ s
        | some (c, csz) ↦
            let s' = set_consumer s cname (new_consumer csz) in
            producer_made fname nbuckets bucket_size (make s' fname size)
      ]

  unfoldable pub pcq_create : List ℕ → ℕ → ℕ → State → State × Rc
  pcq_create fname nbuckets bucket_size s =
      let cname = pcq_consumer_fname fname in
      if not (bit_and bucket_size (sub64 bucket_size 1) == 0)
      then (s, Rc.failed)
      else if exists s cname || exists s fname
      then (s, Rc.ok)
      else (
        consumer_made fname nbuckets bucket_size (u64 (two_mb + nbuckets * bucket_size))
            (make s cname two_mb),
        Rc.ok,
      )
