-- ===== src/Alloc/Buckets.antt =====
-- The bucket series of src/famfs_alloc.c: the numbers of the buckets in random order.
pub mod Laws
use famfs.Prelude.{ℕ, zero, suc, ◌+◌, ◌-◌, ◌%◌, Bool, ltb, if◌then◌else◌, minus_one, store, u64}

pub record BucketSeries : Type 0 where
  pub nbuckets : ℕ
  pub current : ℕ
  pub buckets : ℕ → ℕ

pub swap : (ℕ → ℕ) → ℕ → ℕ → ℕ → ℕ
swap b i j = store (store b i (b j)) j (b i)

-- The Fisher-Yates shuffle, from index i down; `rand i` is the number drawn for index i.
pub shuffle : (ℕ → ℕ) → ℕ → (ℕ → ℕ) → ℕ → ℕ
shuffle rand zero b = b
shuffle rand (suc i) b = shuffle rand i (swap b (suc i) (rand (suc i) % suc (suc i)))

pub bucket_series_alloc : (ℕ → ℕ) → ℕ → ℕ → BucketSeries
bucket_series_alloc rand nbuckets start = record {
  nbuckets = nbuckets;
  current = 0;
  buckets = shuffle rand (nbuckets - 1) (λ i. i + start);
}

pub bucket_series_next : BucketSeries → BucketSeries × ℕ
bucket_series_next bs =
    if ltb bs.current bs.nbuckets
    then (record bs { current = bs.current + 1 }, bs.buckets bs.current)
    else (bs, minus_one)

pub bucket_series_rewind : BucketSeries → BucketSeries
bucket_series_rewind bs = record bs { current = 0 }
