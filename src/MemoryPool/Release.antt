-- ===== src/MemoryPool/Release.antt =====
-- The memory that a pool of src/utils/memory_pool.cpp is given and the memory that it frees.
use mathlib.Core.List.{append_assoc, append-nil}
use packet_classifier.Prelude.{
  list_laws, ℕ, zero, suc, ◌+◌, ◌*◌, ◌%◌, ◌^◌, ◌≡◌, ◌∙◌, refl, sym, ap, ◌⊎◌, inl, inr, Bool, true,
  false, List, [], ◌∷◌, ◌++◌, Option, none, some, arith, ◌==◌, if◌then◌else◌, Bool-cases,
}
use packet_classifier.Prelude.Int.{ℤ}
use packet_classifier.NumaMemory.{
  Request, no_request, posix_memalign, malloc, numa_request, allocate_numa_memory, get_or_else,
}
use packet_classifier.MemoryPool.{
  cache_line_size, Block, MemoryPool, new_block, link, add_new_block, created, invalid_argument,
  bad_alloc, empty_pool, create, objects_to_add, take, allocate, deallocate, grow,
}
use packet_classifier.MemoryPool.Destruction.{clear, destroy, destroy_block}
use packet_classifier.MemoryPool.Given.{
  given, block_given, after_allocate, Op, allocates, deallocates, grows, shrinks, perform, op_given,
  perform_all, all_given, create_given,
}

clear-append : (bs cs : List Block) → clear (bs ++ cs) ≡ clear bs ++ clear cs
unfolding clear
clear-append [] cs = refl
clear-append (b ∷ bs) cs =
    ap (λ s. destroy_block b ++ s) (clear-append bs cs)
    ∙ sym (append_assoc (destroy_block b) (clear bs) (clear cs))

given-allocate_numa_memory :
    (bytes : ℕ) (align : Bool) (answer : Option ℕ)
    → let p = allocate_numa_memory cache_line_size bytes align answer in
      given (numa_request cache_line_size bytes align) answer ≡ (if p == 0 then [] else p ∷ [])
unfolding allocate_numa_memory
given-allocate_numa_memory bytes align answer =
    of_request (numa_request cache_line_size bytes align) answer
  where
    of_request :
        (r : Request) (answer : Option ℕ)
        → let p : ℕ = elim r as (λ x. ℕ) [
          | no_request ↦ 0
          | posix_memalign a n ↦ get_or_else answer 0
          | malloc n ↦ get_or_else answer 0
        ] in
          given r answer ≡ (if p == 0 then [] else p ∷ [])
    of_request no_request answer = ground arith
    of_request (posix_memalign a n) none = ground arith
    of_request (posix_memalign a n) (some p) = ground arith
    of_request (malloc n) none = ground arith
    of_request (malloc n) (some p) = ground arith

-- A block takes the memory that is given, or there is none of either.
new_block-given :
    (bytes : ℕ) (align : Bool) (answer : Option ℕ)
    → ((new_block bytes align answer ≡ none)
        × (given (numa_request cache_line_size bytes align) answer ≡ []))
      ⊎ ((b : Block) × (new_block bytes align answer ≡ some b)
          × (given (numa_request cache_line_size bytes align) answer ≡ clear (b ∷ [])))
unfolding new_block clear
new_block-given bytes align answer =
    let p : ℕ = allocate_numa_memory cache_line_size bytes align answer in
    let gives = given-allocate_numa_memory bytes align answer in
    elim (Bool-cases (p == 0)) [
      | inl null ↦ inl (rw (new_block, null) refl, rw (gives, null) refl)
      | inr memory ↦ inr (
        record { memory = p; capacity_bytes = bytes },
        rw (new_block, memory) refl,
        rw (gives, memory) refl,
      )
    ]

abbrev with_block : MemoryPool → ℕ → Block → MemoryPool
with_block pool n b =
    let (words, head) = link pool.words pool.free_list_head b.memory pool.actual_object_size n in
    record pool {
      words = words;
      free_list_head = head;
      memory_blocks = pool.memory_blocks ++ b ∷ [];
      current_capacity_objects = (pool.current_capacity_objects + n) % 2 ^ 64;
    }

-- A new block is added to the blocks with the memory that is given for it; or nothing is given and
-- the pool stays as it is.
pub add_new_block-given :
    (pool : MemoryPool) (n : ℕ) (answer : Option ℕ)
    → ((add_new_block pool n answer ≡ (pool, false)) × (block_given pool n answer ≡ []))
      ⊎ ((pool' : MemoryPool) × (add_new_block pool n answer ≡ (pool', true))
          × (clear pool'.memory_blocks ≡ clear pool.memory_blocks ++ block_given pool n answer))
unfolding add_new_block block_given
add_new_block-given pool zero answer = inr (pool, refl, sym (append-nil _))
add_new_block-given pool (suc n) answer =
    let some_objects : (suc n == 0) ≡ false = ground arith in
    elim (new_block-given (suc n * pool.actual_object_size % 2 ^ 64) pool.cache_align_objects
      answer) [
        | inl (failed, nothing) ↦
            inl (
              rw (add_new_block, some_objects, failed) refl,
              rw (block_given, some_objects) nothing,
            )
        | inr (b, does, gives) ↦ inr (
          with_block pool (suc n) b,
          rw (add_new_block, some_objects, does) refl,
          rw (block_given, some_objects, gives) (clear-append pool.memory_blocks (b ∷ [])),
        )
      ]

-- The blocks stay the same whether or not there is an object to take.
take-memory_blocks :
    (before pool : MemoryPool)
    → (after_allocate before (take pool)).memory_blocks ≡ pool.memory_blocks
unfolding take
take-memory_blocks before pool = elim (Bool-cases (pool.free_list_head == 0)) [
  | inl nothing ↦ rw (take, nothing) refl
  | inr usable ↦ rw (take, usable) refl
]

grow-given :
    (pool : MemoryPool) (n : ℕ) (answer : Option ℕ)
    → clear (grow pool n answer).0.memory_blocks
      ≡ clear pool.memory_blocks ++ block_given pool n answer
unfolding grow
grow-given pool n answer = elim (add_new_block-given pool n answer) [
  | inl (failed, nothing) ↦ rw (grow, failed, nothing) (simp list_laws refl)
  | inr (pool', does, blocks) ↦ rw (grow, does) blocks
]

-- Whether it succeeds or throws, an operation keeps the memory that it is given.
perform-given :
    (pool : MemoryPool) (op : Op)
    → clear (perform pool op).memory_blocks ≡ clear pool.memory_blocks ++ op_given pool op
unfolding allocate deallocate
perform-given pool (allocates answer) = elim (Bool-cases (pool.free_list_head == 0)) [
  | inl empty ↦ elim (add_new_block-given pool (objects_to_add pool) answer) [
    | inl (failed, nothing) ↦ rw (allocate, empty, failed, nothing) (simp list_laws refl)
    | inr (grown, does, blocks) ↦ rw (allocate, empty, does, take-memory_blocks pool grown) blocks
  ]
  | inr usable ↦ rw (allocate, usable) (simp list_laws refl)
]
perform-given pool (deallocates p) = elim (Bool-cases (p == 0)) [
  | inl null ↦ rw (deallocate, null) (simp list_laws refl)
  | inr object ↦ rw (deallocate, object) (simp list_laws refl)
]
perform-given pool (grows n answer) = grow-given pool n answer
perform-given pool shrinks = simp list_laws refl

perform_all-given :
    (pool : MemoryPool) (ops : List Op)
    → clear (perform_all pool ops).memory_blocks ≡ clear pool.memory_blocks ++ all_given pool ops
unfolding perform_all all_given
perform_all-given pool [] = simp list_laws refl
perform_all-given pool (op ∷ ops) =
    perform_all-given (perform pool op) ops
    ∙ ap (λ s. s ++ all_given (perform pool op) ops) (perform-given pool op)
    ∙ append_assoc (clear pool.memory_blocks) _ _

-- A pool that is destroyed frees what the system gave to it, from the constructor on and whichever
-- calls succeed or throw: each address as often as it was given, in that order, and nothing else. A
-- constructor that throws has been given nothing.
pub destroy-given :
    (object_size n : ℕ) (node : ℤ) (words : ℕ → ℕ) (answer : Option ℕ) (ops : List Op)
    → let made = create object_size n node words answer in
      let first = create_given object_size n node words answer in
      ((pool : MemoryPool) × (made ≡ created pool)
        × ((destroy (perform_all pool ops)).1 ≡ first ++ all_given pool ops))
      ⊎ (((made ≡ invalid_argument) ⊎ (made ≡ bad_alloc)) × (first ≡ []))
unfolding create destroy
destroy-given object_size n node words answer ops = elim (Bool-cases (object_size == 0)) [
  | inl no_size ↦ inr (inl (rw (create, no_size) refl), rw no_size refl)
  | inr sized ↦ elim (Bool-cases (n == 0)) [
    | inl no_object ↦ inr (inl (rw (create, sized, no_object) refl), rw (sized, no_object) refl)
    | inr some_objects ↦ elim (add_new_block-given (empty_pool object_size node words) n answer) [
      | inl (failed, nothing) ↦ inr (inr (ground arith), rw (sized, some_objects) nothing)
      | inr (pool, does, blocks) ↦ inl (
        pool,
        ground arith,
        rw (sized, some_objects)
            (perform_all-given pool ops ∙ ap (λ s. s ++ all_given pool ops) blocks),
      )
    ]
  ]
]
