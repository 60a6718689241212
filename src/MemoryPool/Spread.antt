-- ===== src/MemoryPool/Spread.antt =====
-- The objects of a new block of src/utils/memory_pool.cpp beside those of the pool.
use native.Mathlib.Decide.{dec_lt}
use native.Mathlib.Nat.{suc-mul, mul-le-mul_right}
use packet_classifier.Prelude.{ℕ, ◌+◌, ◌*◌, ◌≤◌, ◌<◌, ◌≡◌, ◌≢◌, ◌⊎◌, inl, inr, List, arith}
use packet_classifier.Prelude.Bags.{count}
use packet_classifier.MemoryPool.Chain.{linked, linked_member}
use packet_classifier.MemoryPool.Invariant.{Apart, Spread}

multiples : (i j size : ℕ) → i < j → i * size + size ≤ j * size
multiples i j size h = let k = mul-le-mul_right size h in omega (arith, suc-mul i size)

-- The start of one of the new objects.
abbrev IsNew : ℕ → ℕ → ℕ → ℕ → Type 0
IsNew p size n a = (i : ℕ) × (i < n) × (a ≡ p + i * size)

new-Apart : (p size n a b : ℕ) → IsNew p size n a → IsNew p size n b → a ≢ b → Apart size a b
new-Apart p size n a b (i, low, at) (j, low', at') h = elim (dec_lt i j) [
  | yes before ↦ inl (omega (arith, multiples i j size before))
  | no after ↦ elim (dec_lt j i) [
    | yes behind ↦ inr (omega (arith, multiples j i size behind))
    | no same ↦ let e : i ≡ j = omega arith in absurd (ground arith)
  ]
]

-- What lies outside the region is apart from the new objects.
outside-Apart :
    (p size n a c : ℕ) → IsNew p size n a → (c + size ≤ p) ⊎ (p + n * size ≤ c) → Apart size a c
outside-Apart p size n a c (i, low, at) out = omega (arith, multiples i n size low)

origin :
    (p size n a : ℕ) (free owned : List ℕ)
    → 0 < count a (linked p size n free) + count a owned
    → (0 < count a free + count a owned) ⊎ IsNew p size n a
origin p size n a free owned h = elim (dec_lt 0 (count a owned)) [
  | yes held ↦ inl (omega arith)
  | no not_held ↦ elim (linked_member p size n a free (omega arith)) [
    | inl old ↦ inl (omega arith)
    | inr new ↦ inr new
  ]
]

pub linked-Spread :
    (p size n : ℕ) (free owned : List ℕ)
    → Spread size free owned
    → ((c : ℕ) → 0 < count c free + count c owned → (c + size ≤ p) ⊎ (p + n * size ≤ c))
    → Spread size (linked p size n free) owned
linked-Spread p size n free owned s out a b h k differ = elim (origin p size n a free owned h) [
  | inl old ↦ elim (origin p size n b free owned k) [
    | inl old' ↦ s a b old old' differ
    | inr new ↦ let w = outside-Apart p size n b a new (out a old) in omega arith
  ]
  | inr new ↦ elim (origin p size n b free owned k) [
    | inl old ↦ outside-Apart p size n a b new (out b old)
    | inr new' ↦ new-Apart p size n a b new new' differ
  ]
]
