-- ===== src/MemoryPool/Invariant.antt =====
-- What a valid pool of src/utils/memory_pool.cpp is, and what is asked of posix_memalign.
use packet_classifier.Prelude.{
  ℕ, ◌+◌, ◌*◌, ◌%◌, ◌^◌, ◌≤◌, ◌<◌, ◌≡◌, ◌≢◌, ◌⊎◌, true, List, [], ◌∷◌, Option, some, length, All,
}
use packet_classifier.NumaMemory.{alignment_final}
use packet_classifier.MemoryPool.{Block, MemoryPool, cache_line_size}
use packet_classifier.Prelude.Bags.{count}
use packet_classifier.MemoryPool.Chain.{IsChain}

-- The object lies within one of the blocks.
abbrev pub Within : List Block → ℕ → ℕ → Type 0
Within [] size a = ⊥
Within (b ∷ bs) size a =
    ((b.memory ≤ a) × (a + size ≤ b.memory + b.capacity_bytes)) ⊎ Within bs size a

-- It is not null and starts a cache line, too.
abbrev pub Placed : MemoryPool → ℕ → Type 0
Placed pool a = (0 < a) × (a % 64 ≡ 0) × Within pool.memory_blocks pool.actual_object_size a

-- Two objects share no byte.
abbrev pub Apart : ℕ → ℕ → ℕ → Type 0
Apart size a b = (a + size ≤ b) ⊎ (b + size ≤ a)

-- The objects of either list are apart.
abbrev pub Spread : ℕ → List ℕ → List ℕ → Type 0
Spread size xs ys =
    (a b : ℕ) → 0 < count a xs + count a ys → 0 < count b xs + count b ys → a ≢ b → Apart size a b

pub record IsValid (pool : MemoryPool) (owned : List ℕ) : Type 0 where
  pub free : List ℕ
  pub chain : IsChain pool.words pool.free_list_head free
  pub once : (a : ℕ) → count a free + count a owned ≤ 1
  pub apart : Spread pool.actual_object_size free owned
  pub total : length free + length owned ≡ pool.current_capacity_objects
  pub to_lines : pool.cache_align_objects ≡ true
  pub positive : 0 < pool.actual_object_size
  pub lines : pool.actual_object_size % 64 ≡ 0
  pub placed_free : All (Placed pool) free
  pub placed_owned : All (Placed pool) owned
  pub bounded : pool.current_capacity_objects < 2 ^ 64

-- The region is apart from the blocks.
abbrev pub Disjoint : List Block → ℕ → ℕ → Type 0
Disjoint bs low high =
    All (λ (b : Block). (high ≤ b.memory) ⊎ (b.memory + b.capacity_bytes ≤ low)) bs

-- What posix_memalign promises of a region for `n` objects, which do not overflow a `size_t`: a
-- multiple of the alignment that it was called with, apart from the memory it gave before, with all
-- of its bytes in the address space.
pub record Answers (pool : MemoryPool) (n : ℕ) (answer : Option ℕ) : Type 0 where
  pub fits : n * pool.actual_object_size < 2 ^ 64
  pub countable : pool.current_capacity_objects + n < 2 ^ 64
  pub aligned :
      (p : ℕ) → answer ≡ some p → p % alignment_final cache_line_size pool.cache_align_objects ≡ 0
  pub disjoint :
      (p : ℕ) → answer ≡ some p → Disjoint pool.memory_blocks p (p + n * pool.actual_object_size)
  pub in_space : (p : ℕ) → answer ≡ some p → p + n * pool.actual_object_size ≤ 2 ^ 64
