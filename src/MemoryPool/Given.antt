-- ===== src/MemoryPool/Given.antt =====
-- Operations of a pool of src/utils/memory_pool.cpp, and the memory that the system gives in their
-- course.
use packet_classifier.Prelude.{
  ◌||◌, ℕ, ◌*◌, ◌%◌, ◌^◌, List, [], ◌∷◌, ◌++◌, Option, none, some, ◌==◌, if◌then◌else◌,
}
use packet_classifier.Prelude.Int.{ℤ}
use packet_classifier.NumaMemory.{Request, no_request, numa_request}
use packet_classifier.MemoryPool.{
  cache_line_size, MemoryPool, empty_pool, Allocated, allocated, no_memory, internal_error,
  objects_to_add, allocate, deallocate, grow,
}
use packet_classifier.MemoryPool.Destruction.{shrink_to_fit}

-- What a call to the system gives.
abbrev pub given : Request → Option ℕ → List ℕ
given no_request answer = []
given _ none = []
given _ (some p) = if p == 0 then [] else p ∷ []

-- The call for a block, if there is one.
unfoldable pub block_given : MemoryPool → ℕ → Option ℕ → List ℕ
block_given pool n answer =
    if n == 0
    then []
    else given
        (numa_request cache_line_size (n * pool.actual_object_size % 2 ^ 64)
          pool.cache_align_objects)
        answer

pub data Op : Type 0 where
  allocates : Option ℕ → Op
  deallocates : ℕ → Op
  grows : ℕ → Option ℕ → Op
  shrinks : Op

-- The pool after an allocation, whether or not it throws.
abbrev pub after_allocate : MemoryPool → Allocated → MemoryPool
after_allocate pool (allocated p pool') = pool'
after_allocate pool no_memory = pool
after_allocate pool (internal_error pool') = pool'

abbrev pub perform : MemoryPool → Op → MemoryPool
perform pool (allocates answer) = after_allocate pool (allocate pool answer)
perform pool (deallocates p) = deallocate pool p
perform pool (grows n answer) = (grow pool n answer).0
perform pool shrinks = shrink_to_fit pool

abbrev pub op_given : MemoryPool → Op → List ℕ
op_given pool (allocates answer) =
    if pool.free_list_head == 0 then block_given pool (objects_to_add pool) answer else []
op_given pool (deallocates p) = []
op_given pool (grows n answer) = block_given pool n answer
op_given pool shrinks = []

unfoldable pub perform_all : MemoryPool → List Op → MemoryPool
perform_all pool [] = pool
perform_all pool (op ∷ ops) = perform_all (perform pool op) ops

-- What the system gives in the course of the operations.
unfoldable pub all_given : MemoryPool → List Op → List ℕ
all_given pool [] = []
all_given pool (op ∷ ops) = op_given pool op ++ all_given (perform pool op) ops

-- The memory that the constructor is given.
abbrev pub create_given : ℕ → ℕ → ℤ → (ℕ → ℕ) → Option ℕ → List ℕ
create_given object_size n node words answer =
    if object_size == 0 || n == 0
    then []
    else block_given (empty_pool object_size node words) n answer
