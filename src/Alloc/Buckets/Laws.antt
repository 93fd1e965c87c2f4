-- ===== src/Alloc/Buckets/Laws.antt =====
-- Whatever the random numbers, the series names every bucket once.
use famfs.Prelude.{ℕ, zero, suc, ◌+◌, ◌≤◌, ◌<◌, ◌≡◌, minus_one}
use famfs.Alloc.Buckets.{BucketSeries, bucket_series_next}

-- The first `n` cells hold n different numbers from `lo` to `lo + n - 1`, and each of them stands
-- in a cell.
pub record IsPermutation (n lo : ℕ) (b : ℕ → ℕ) : Type 0 where
  pub in_range : (i : ℕ) → i < n → (lo ≤ b i) × (b i < lo + n)
  pub distinct : (i j : ℕ) → i < n → j < n → b i ≡ b j → i ≡ j
  pub onto : (v : ℕ) → lo ≤ v → v < lo + n → (i : ℕ) × (i < n) × (b i ≡ v)

-- Every result of a call of `bucket_series_next`, for `k` calls in a row.
pub draws : ℕ → BucketSeries → ℕ → ℕ
draws zero bs k = minus_one
draws (suc n) bs zero = (bucket_series_next bs).1
draws (suc n) bs (suc k) = draws n (bucket_series_next bs).0 k
