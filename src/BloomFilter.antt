-- ===== src/BloomFilter.antt =====
-- src/data_structures/bloom_filter.cpp. std::hash on strings is the parameter `std_hash`; the
-- arithmetic on `double` is the parameter `Doubles`.
pub mod Doubles
pub mod Membership
pub mod Params
use packet_classifier.Prelude.{
  ℕ, zero, suc, ◌+◌, ◌-◌, ◌*◌, ◌%◌, ◌^◌, Bool, true, false, ◌&&◌, ◌||◌, not, List, [], ◌∷◌, ltb,
  ◌==◌, if◌then◌else◌, get_or, set, replicate,
}
use packet_classifier.Prelude.Int.{ℤ, pos, negsuc, pos_part, leb_ℤ, ltb_ℤ, ◌==ℤ◌}
use packet_classifier.Text.{Str}
use Doubles.{DoubleOps}

pub record BloomFilter : Type 0 where
  pub bit_array_size : ℕ
  pub num_hash_functions : ℤ
  pub bit_array : List Bool
  pub current_insertions : ℕ

-- The constructor with a size and a number of hash functions.
unfoldable pub sized : ℕ → ℤ → BloomFilter
sized size num_hashes =
    let m : ℕ = if size == 0 then 1024 else size in
    record {
      bit_array_size = m;
      num_hash_functions = if leb_ℤ num_hashes (pos 0) then pos 3 else num_hashes;
      bit_array = replicate m false;
      current_insertions = 0;
    }

-- `hash_val * 33 + c` by a shift, in 64 bits.
abbrev djb2 : ℕ → Str → ℕ
djb2 hash_val [] = hash_val
djb2 hash_val (c ∷ bytes) =
    djb2 (((hash_val * 2 ^ 5 % 2 ^ 64 + hash_val) % 2 ^ 64 + c) % 2 ^ 64) bytes

unfoldable pub hash_function2 : Str → ℕ
hash_function2 bytes = djb2 5381 bytes

-- The hash of round i, before the next rounds: `left` rounds remain.
hashes_from : ℕ → ℕ → ℕ → ℕ → ℕ → List ℕ
hashes_from m h1 h2 i zero = []
hashes_from m h1 h2 i (suc left) =
    (if i == 0
      then h1 % m
      else if i == 1
      then h2 % m
      else (h1 + i * ((h2 + i + 1) % 2 ^ 64)) % 2 ^ 64 % m)
    ∷ hashes_from m h1 h2 (i + 1) left

set_bits : List Bool → List ℕ → List Bool
set_bits bits [] = bits
set_bits bits (h ∷ hs) = set_bits (set bits h true) hs

all_set : List Bool → List ℕ → Bool
all_set bits [] = true
all_set bits (h ∷ hs) = if not (get_or bits h false) then false else all_set bits hs

module _ (std_hash : Str → ℕ) where
  -- The positions of an item.
  unfoldable pub hash : BloomFilter → Str → List ℕ
  unfolding hashes_from
  hash f bytes =
      if f.num_hash_functions ==ℤ pos 0 || f.bit_array_size == 0
      then []
      else hashes_from f.bit_array_size (std_hash bytes)
          (if ltb_ℤ (pos 1) f.num_hash_functions then hash_function2 bytes else 0) 0
          (pos_part f.num_hash_functions)

  unfoldable pub insert : BloomFilter → Str → BloomFilter
  unfolding set_bits
  insert f bytes = if f.bit_array_size == 0 then f else record f {
    bit_array = set_bits f.bit_array (hash f bytes);
    current_insertions = (f.current_insertions + 1) % 2 ^ 64;
  }

  unfoldable pub possibly_contains : BloomFilter → Str → Bool
  unfolding all_set
  possibly_contains f bytes =
      if f.bit_array_size == 0 then false else all_set f.bit_array (hash f bytes)

  unfoldable pub insert_all : BloomFilter → List Str → BloomFilter
  insert_all f [] = f
  insert_all f (item ∷ items) = insert_all (insert f item) items

-- Both kinds of `double` are one type here, and its operations are a parameter.
module _ (d : DoubleOps) where
  open d use {R, of_ℕ, of_ℤ, minus, times, over, log, exp, pow, ceil, round, lt, le, to_u64, to_int}

  -- -1.0 * (n * log(p)) / (log(2) * log(2)), rounded up
  pub optimal_size : ℕ → R → ℕ
  optimal_size n p = to_u64 (
      ceil (
        over (times (of_ℤ (negsuc 0)) (times (of_ℕ n) (log p)))
          (times (log (of_ℕ 2)) (log (of_ℕ 2)))))

  -- m / n * log(2), rounded up
  pub optimal_hashes : ℕ → ℕ → ℤ
  optimal_hashes m n = to_int (ceil (times (over (of_ℕ m) (of_ℕ n)) (log (of_ℕ 2))))

  abbrev pub or_if_zero : ℕ → ℕ → ℕ
  or_if_zero n other = if n == 0 then other else n

  abbrev pub or_one : ℤ → ℤ
  or_one k = if k ==ℤ pos 0 then pos 1 else k

  -- The parameters where no items are expected, at a usable probability.
  idle_params : R → ℕ × ℤ
  idle_params p = let m = or_if_zero (optimal_size 1 p) 100 in (m, or_one (optimal_hashes m 1))

  expected_params : ℕ → R → ℕ × ℤ
  expected_params n p =
      let raw = optimal_size n p in
      let k = or_one (optimal_hashes raw n) in
      (or_if_zero raw 100, if ltb_ℤ (pos 16) k then pos 16 else k)

  -- `calculateOptimalParams`: the size and the number of hash functions.
  unfoldable pub calculate_optimal_params : ℕ → R → ℕ × ℤ
  unfolding idle_params expected_params
  calculate_optimal_params n p =
      if n == 0 || (le p (of_ℕ 0) || le (of_ℕ 1) p)
      then (if n == 0 && (lt (of_ℕ 0) p && lt p (of_ℕ 1)) then idle_params p else (1024, pos 3))
      else expected_params n p

  -- The constructor with an expected number of items and a false positive rate.
  unfoldable pub for_items : ℕ → R → BloomFilter
  unfolding calculate_optimal_params
  for_items n p =
      let (size, hashes) = calculate_optimal_params n p in
      let m = or_if_zero size 1024 in
      record {
        bit_array_size = m;
        num_hash_functions = hashes;
        bit_array = replicate m false;
        current_insertions = 0;
      }

  unfoldable pub get_effective_false_positive_probability : BloomFilter → R
  get_effective_false_positive_probability f =
      if f.bit_array_size == 0
      then of_ℕ 1
      else let kn_div_m =
          over (of_ℕ (pos_part f.num_hash_functions * f.current_insertions % 2 ^ 64))
            (of_ℕ f.bit_array_size) in
        let prob_one_bit_still_zero = exp (minus (of_ℕ 0) kn_div_m) in
        pow (minus (of_ℕ 1) prob_one_bit_still_zero) (of_ℤ f.num_hash_functions)

  count_set : List Bool → ℕ
  count_set [] = 0
  count_set (b ∷ bits) = if b then suc (count_set bits) else count_set bits

  -- `getApproximateCount`
  unfoldable pub get_approximate_count : BloomFilter → ℕ
  unfolding count_set
  get_approximate_count f =
      let m = of_ℕ f.bit_array_size in
      let count = count_set f.bit_array in
      let estimate =
        times (minus (of_ℕ 0) (over m (of_ℤ f.num_hash_functions)))
          (log (minus (of_ℕ 1) (over (of_ℕ count) m))) in
      if f.bit_array_size == 0 || f.num_hash_functions ==ℤ pos 0
      then 0
      else if count == f.bit_array_size
      then 2 ^ 64 - 1
      else if count == 0
      then 0
      else if lt estimate (of_ℕ 0)
      then f.current_insertions
      else to_u64 (round estimate)
