-- ===== src/BloomFilter/Params.antt =====
-- `calculateOptimalParams` of src/data_structures/bloom_filter.cpp.
use packet_classifier.Prelude.{ℕ, ◌<◌, ◌≢◌, arith}
use packet_classifier.Prelude.Int.{pos, ◌≤ℤ◌}
use packet_classifier.BloomFilter.{calculate_optimal_params}
use packet_classifier.BloomFilter.Doubles.{DoubleOps}

module _ (d : DoubleOps) where
  -- Whatever the arithmetic gives, the array is not empty and there is a hash function.
  pub calculate_optimal_params_bounds :
      (n : ℕ) (p : d.R)
      → (0 < (calculate_optimal_params d n p).0) × ((calculate_optimal_params d n p).1 ≢ pos 0)
  unfolding calculate_optimal_params
  calculate_optimal_params_bounds n p = (ground arith, ground arith)

  -- There are at most sixteen hash functions where items are expected.
  pub calculate_optimal_params-le :
      (n : ℕ) (p : d.R) → n ≢ 0 → (calculate_optimal_params d n p).1 ≤ℤ pos 16
  unfolding calculate_optimal_params
  calculate_optimal_params-le n p some_items = ground arith
