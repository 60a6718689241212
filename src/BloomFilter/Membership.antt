-- ===== src/BloomFilter/Membership.antt =====
-- Insertion and lookup in src/data_structures/bloom_filter.cpp: valid filters, and the bits that
-- an insertion sets.
use packet_classifier.Prelude.{
  ℕ, zero, suc, ◌+◌, ◌<◌, ◌≡◌, refl, ◌∙◌, Bool, true, false, List, [], ◌∷◌, ◌++◌, arith, length,
  All, get_or, set, length-set, get_or-set_self, Bool-cases, inl, inr, replicate, length-replicate,
  get_or-replicate, ◌==◌, ◌||◌,
}
use packet_classifier.Prelude.Int.{ℤ, pos, ◌<ℤ◌, ◌==ℤ◌, pos_part}
use packet_classifier.Text.{Str}
use packet_classifier.BloomFilter.{
  BloomFilter, sized, hashes_from, set_bits, all_set, hash, insert, possibly_contains, insert_all,
}

pub record IsValid (f : BloomFilter) : Type 0 where
  pub positive : 0 < f.bit_array_size
  pub width : length f.bit_array ≡ f.bit_array_size
  pub hashes : pos 0 <ℤ f.num_hash_functions

hashes_from-lt : (m h1 h2 i left : ℕ) → 0 < m → All (λ h. h < m) (hashes_from m h1 h2 i left)
unfolding hashes_from
hashes_from-lt m h1 h2 i zero p = tt
hashes_from-lt m h1 h2 i (suc left) p = (ground arith, hashes_from-lt m h1 h2 (i + 1) left p)

hashes_from-cons :
    (m h1 h2 i left : ℕ)
    → 0 < left
    → (h : ℕ) × (hs : List ℕ) × (hashes_from m h1 h2 i left ≡ h ∷ hs)
unfolding hashes_from
hashes_from-cons m h1 h2 i zero p = absurd (omega arith)
hashes_from-cons m h1 h2 i (suc left) p = (_, _, refl)

set_bits-length : (bits : List Bool) (hs : List ℕ) → length (set_bits bits hs) ≡ length bits
unfolding set_bits
set_bits-length bits [] = refl
set_bits-length bits (h ∷ hs) = set_bits-length (set bits h true) hs ∙ length-set bits h true

-- A write of `true` clears nothing.
set-true_keeps :
    (bits : List Bool) (h i : ℕ)
    → get_or bits i false ≡ true
    → get_or (set bits h true) i false ≡ true
set-true_keeps [] h i e = e
set-true_keeps (b ∷ bits) zero zero e = refl
set-true_keeps (b ∷ bits) zero (suc i) e = e
set-true_keeps (b ∷ bits) (suc h) zero e = e
set-true_keeps (b ∷ bits) (suc h) (suc i) e = set-true_keeps bits h i e

set_bits-keeps :
    (bits : List Bool) (hs : List ℕ) (i : ℕ)
    → get_or bits i false ≡ true
    → get_or (set_bits bits hs) i false ≡ true
unfolding set_bits
set_bits-keeps bits [] i e = e
set_bits-keeps bits (h ∷ hs) i e = set_bits-keeps (set bits h true) hs i (set-true_keeps bits h i e)

all_set-keeps :
    (bits : List Bool) (hs is : List ℕ)
    → all_set bits is ≡ true
    → all_set (set_bits bits hs) is ≡ true
unfolding all_set
all_set-keeps bits hs [] e = refl
all_set-keeps bits hs (i ∷ is) e =
    ground (arith, set_bits-keeps bits hs i, all_set-keeps bits hs is)

all_set-set_bits :
    (bits : List Bool) (hs : List ℕ)
    → All (λ h. h < length bits) hs
    → all_set (set_bits bits hs) hs ≡ true
unfolding all_set set_bits
all_set-set_bits bits [] h = refl
all_set-set_bits bits (i ∷ hs) (lt, h) = ground (
  arith,
  set_bits-keeps (set bits i true) hs i (get_or-set_self bits i true false lt),
  all_set-set_bits (set bits i true) hs (rw (length-set bits i true) h),
)

module _ (std_hash : Str → ℕ) where
  pub hash-lt :
      (f : BloomFilter) (item : Str)
      → 0 < f.bit_array_size
      → All (λ h. h < f.bit_array_size) (hash std_hash f item)
  unfolding hash
  hash-lt f item p = elim (Bool-cases (f.num_hash_functions ==ℤ pos 0 || f.bit_array_size == 0)) [
    | inl none_needed ↦ rw none_needed tt
    | inr some_needed ↦ rw some_needed (hashes_from-lt f.bit_array_size _ _ 0 _ p)
  ]

  -- The positions depend on the size and the number of functions alone.
  hash-insert :
      (f : BloomFilter) (a b : Str) → hash std_hash (insert std_hash f a) b ≡ hash std_hash f b
  unfolding hash insert
  hash-insert f a b = ground arith

  pub insert-IsValid : (f : BloomFilter) (item : Str) → IsValid f → IsValid (insert std_hash f item)
  unfolding insert
  insert-IsValid f item v = ground (arith, set_bits-length f.bit_array (hash std_hash f item))

  -- An item is reported right after it is inserted.
  pub possibly_contains-insert :
      (f : BloomFilter) (item : Str)
      → IsValid f
      → possibly_contains std_hash (insert std_hash f item) item ≡ true
  unfolding possibly_contains insert
  possibly_contains-insert f item v = ground (
    arith,
    hash-insert f item item,
    all_set-set_bits f.bit_array (hash std_hash f item) (rw v.width (hash-lt f item v.positive)),
  )

  pub possibly_contains-keeps :
      (f : BloomFilter) (a b : Str)
      → possibly_contains std_hash f b ≡ true
      → possibly_contains std_hash (insert std_hash f a) b ≡ true
  unfolding possibly_contains insert
  possibly_contains-keeps f a b e =
      ground (
        arith,
        hash-insert f a b,
        all_set-keeps f.bit_array (hash std_hash f a) (hash std_hash f b),
      )

  insert_all-keeps :
      (f : BloomFilter) (items : List Str) (b : Str)
      → possibly_contains std_hash f b ≡ true
      → possibly_contains std_hash (insert_all std_hash f items) b ≡ true
  unfolding insert_all
  insert_all-keeps f [] b e = e
  insert_all-keeps f (a ∷ items) b e =
      insert_all-keeps (insert std_hash f a) items b (possibly_contains-keeps f a b e)

  pub insert_all-IsValid :
      (f : BloomFilter) (items : List Str) → IsValid f → IsValid (insert_all std_hash f items)
  unfolding insert_all
  insert_all-IsValid f [] v = v
  insert_all-IsValid f (a ∷ items) v =
      insert_all-IsValid (insert std_hash f a) items (insert-IsValid f a v)

  -- No false negatives: an item is reported after its insertion, whatever is inserted before and
  -- after it.
  pub possibly_contains-insert_all :
      (f : BloomFilter) (before : List Str) (item : Str) (after : List Str)
      → IsValid f
      → possibly_contains std_hash (insert_all std_hash f (before ++ item ∷ after)) item ≡ true
  unfolding insert_all
  possibly_contains-insert_all f [] item after v =
      insert_all-keeps (insert std_hash f item) after item (possibly_contains-insert f item v)
  possibly_contains-insert_all f (a ∷ before) item after v =
      possibly_contains-insert_all (insert std_hash f a) before item after (insert-IsValid f a v)

  all_set-replicate :
      (bits : List Bool) (hs : List ℕ) (n h : ℕ) (rest : List ℕ)
      → bits ≡ replicate n false
      → hs ≡ h ∷ rest
      → all_set bits hs ≡ false
  unfolding all_set
  all_set-replicate bits hs n h rest blank some_hash = rw (blank, some_hash, get_or-replicate)

  hash-cons :
      (f : BloomFilter) (item : Str)
      → IsValid f
      → (h : ℕ) × (hs : List ℕ) × (hash std_hash f item ≡ h ∷ hs)
  unfolding hash
  hash-cons f item v =
      let some_needed : (f.num_hash_functions ==ℤ pos 0 || f.bit_array_size == 0) ≡ false =
        ground arith in
      rw some_needed
        (hashes_from-cons f.bit_array_size _ _ 0 (pos_part f.num_hash_functions) (omega arith))

  blank-false :
      (f : BloomFilter) (item : Str)
      → IsValid f
      → f.bit_array ≡ replicate f.bit_array_size false
      → possibly_contains std_hash f item ≡ false
  unfolding possibly_contains
  blank-false f item v blank =
      let (h, hs, e) = hash-cons f item v in
      ground (arith, all_set-replicate f.bit_array (hash std_hash f item) f.bit_array_size h hs)

  -- A new filter is valid and contains nothing, at whatever size and number of functions.
  pub sized-IsValid :
      (size : ℕ) (num_hashes : ℤ) (item : Str)
      → IsValid (sized size num_hashes)
        × (possibly_contains std_hash (sized size num_hashes) item ≡ false)
  unfolding sized
  sized-IsValid size num_hashes item =
      let v : IsValid (sized size num_hashes) = record {
        positive = ground arith;
        width = length-replicate _ false;
        hashes = ground arith;
      } in
      (v, blank-false (sized size num_hashes) item v refl)
