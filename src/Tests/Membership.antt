-- ===== src/Tests/Membership.antt =====
-- A filter of 64 bits and three hash functions, and parameters computed with toy arithmetic.
use packet_classifier.Prelude.{ℕ, ◌+◌, ◌*◌, ◌≡◌, true, [], ◌∷◌, ◌++◌, arith, ltb, leb}
use packet_classifier.Prelude.Int.{pos, ◌≤ℤ◌, pos_part}
use packet_classifier.Text.{Str, codes}
use packet_classifier.BloomFilter.{
  BloomFilter, sized, insert_all, possibly_contains, calculate_optimal_params,
}
use packet_classifier.BloomFilter.Doubles.{DoubleOps}
use packet_classifier.BloomFilter.Membership.{IsValid, sized-IsValid, possibly_contains-insert_all}
use packet_classifier.BloomFilter.Params.{calculate_optimal_params-le}

-- The sum of the bytes.
abbrev pub sum_hash : Str → ℕ
sum_hash [] = 0
sum_hash (c ∷ bytes) = c + sum_hash bytes

abbrev small : BloomFilter
small = sized 64 (pos 3)

small-IsValid : IsValid small
small-IsValid = (sized-IsValid sum_hash 64 (pos 3) []).0

possibly_contains-insert_all_example :
    possibly_contains sum_hash
      (insert_all sum_hash small
        ((codes "a" ∷ []) ++ codes "10.0.0.1" ∷ (codes "b" ∷ codes "c" ∷ [])))
      (codes "10.0.0.1")
    ≡ true
possibly_contains-insert_all_example =
    possibly_contains-insert_all sum_hash small (codes "a" ∷ []) (codes "10.0.0.1")
      (codes "b" ∷ codes "c" ∷ []) small-IsValid

-- Whole numbers in place of doubles: every operation gives its first argument.
abbrev toy : DoubleOps
toy = record {
  R = ℕ;
  of_ℕ = λ n. n;
  of_ℤ = pos_part;
  minus = λ x y. x;
  times = λ x y. x * y;
  over = λ x y. x;
  pow = λ x y. x;
  log = λ x. x;
  exp = λ x. x;
  ceil = λ x. x;
  round = λ x. x;
  lt = ltb;
  le = leb;
  to_u64 = λ x. x;
  to_int = pos;
}

calculate_optimal_params-le_example : (calculate_optimal_params toy 50 1).1 ≤ℤ pos 16
calculate_optimal_params-le_example = calculate_optimal_params-le toy 50 1 (omega arith)
