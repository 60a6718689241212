-- ===== src/BloomFilter/Doubles.antt =====
-- The arithmetic on `double` of src/data_structures/bloom_filter.cpp, which is not modelled: its
-- operations are a parameter with no laws.
use packet_classifier.Prelude.{ℕ, Bool}
use packet_classifier.Prelude.Int.{ℤ}

pub record DoubleOps : Type 1 where
  pub R : Type 0
  pub of_ℕ : ℕ → R
  pub of_ℤ : ℤ → R
  pub minus : R → R → R
  pub times : R → R → R
  pub over : R → R → R
  pub pow : R → R → R
  pub log : R → R
  pub exp : R → R
  pub ceil : R → R
  pub round : R → R
  pub lt : R → R → Bool
  pub le : R → R → Bool
  pub to_u64 : R → ℕ
  pub to_int : R → ℤ
