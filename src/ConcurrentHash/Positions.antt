-- ===== src/ConcurrentHash/Positions.antt =====
-- The positions that the loops of src/data_structures/concurrent_hash.cpp probe. The loops also
-- end at the first position; for the positions in the table it comes up again only after as many
-- probes as the capacity.
use native.Mathlib.Decide.{dec_lt}
use native.Mathlib.Nat.{mod-eq_of_lt, mod-eq-sub-mod}
use packet_classifier.Prelude.{
  ℕ, zero, suc, ◌+◌, ◌-◌, ◌%◌, ◌≤◌, ◌<◌, ◌≡◌, ◌≢◌, ◌⊎◌, inl, inr, arith, All, Ordered,
}
use packet_classifier.Text.{Str}
use packet_classifier.ConcurrentHash.{ConcurrentHashTable, positions_from, positions}

-- The sum of two numbers below the modulus is reduced at most once.
pub sum-mod :
    (i p m : ℕ)
    → i < m
    → p < m
    → (((i + p) % m ≡ i + p) × (i + p < m)) ⊎ (((i + p) % m + m ≡ i + p) × (m ≤ i + p))
sum-mod i p m h k = elim (dec_lt (i + p) m) [
  | yes low ↦ inl (mod-eq_of_lt low, low)
  | no high ↦
      let once = mod-eq-sub-mod {n = i + p} {m = m} (omega arith) in
      let rest : (i + p - m) % m ≡ i + p - m = mod-eq_of_lt (omega arith) in
      inr (omega arith, omega arith)
]

apart : (m i p q : ℕ) → i < m → p < q → q < m → (i + q) % m ≢ (i + p) % m
apart m i p q h lt k =
    let a = sum-mod i p m h (omega arith) in let b = sum-mod i q m h k in ground arith

positions_from-apart :
    (m i p q left : ℕ)
    → i < m
    → p < q
    → q + left ≤ m
    → All (λ j. j ≢ (i + p) % m) (positions_from m i q left)
unfolding positions_from
positions_from-apart m i p q zero h lt k = tt
positions_from-apart m i p q (suc left) h lt k = (
  apart m i p q h lt (omega arith),
  positions_from-apart m i p (suc q) left h (omega arith) (omega arith),
)

positions_from-Ordered :
    (m i p left : ℕ) → i < m → p + left ≤ m → Ordered (λ a b. b ≢ a) (positions_from m i p left)
unfolding positions_from
positions_from-Ordered m i p zero h k = tt
positions_from-Ordered m i p (suc left) h k = (
  positions_from-apart m i p (suc p) left h (omega arith) (omega arith),
  positions_from-Ordered m i (suc p) left h (omega arith),
)

positions_from-lt : (m i p left : ℕ) → 0 < m → All (λ j. j < m) (positions_from m i p left)
unfolding positions_from
positions_from-lt m i p zero h = tt
positions_from-lt m i p (suc left) h = (ground arith, positions_from-lt m i (suc p) left h)

module _ (std_hash : Str → ℕ) where
  pub positions-lt :
      (t : ConcurrentHashTable) (key : Str)
      → 0 < t.capacity
      → All (λ j. j < t.capacity) (positions std_hash t key)
  unfolding positions
  positions-lt t key h = positions_from-lt t.capacity _ 0 t.capacity h

  pub positions-Ordered :
      (t : ConcurrentHashTable) (key : Str)
      → 0 < t.capacity
      → Ordered (λ a b. b ≢ a) (positions std_hash t key)
  unfolding positions
  positions-Ordered t key h =
      positions_from-Ordered t.capacity _ 0 t.capacity (ground arith) (omega arith)
