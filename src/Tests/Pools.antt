-- ===== src/Tests/Pools.antt =====
-- A pool of two objects that is used, grown and freed.
use packet_classifier.Prelude.{
  ℕ, suc, true, ◌++◌, ◌≡◌, ◌⊎◌, refl, List, [], ◌∷◌, none, some, arith, length,
}
use packet_classifier.Prelude.Int.{negsuc}
use packet_classifier.NumaMemory.{align_up, allocate_numa_memory, numa_request, posix_memalign}
use packet_classifier.NumaMemory.Alignment.{IsAllowed, numa_request-IsAllowed}
use packet_classifier.MemoryPool.{
  MemoryPool, allocated, no_memory, invalid_argument, bad_alloc, created, create, empty_pool,
  new_block, link, add_new_block, take, allocate, deallocate, get_used_count, free_count, grow,
  objects_to_add,
}
use packet_classifier.Prelude.Bags.{count}
use packet_classifier.MemoryPool.Invariant.{Placed, IsValid, Answers}
use packet_classifier.MemoryPool.Objects.{get_used_count-length}
use packet_classifier.MemoryPool.Destruction.{clear, destroy}
use packet_classifier.MemoryPool.Given.{
  Op, allocates, deallocates, grows, shrinks, perform_all, all_given, create_given, block_given,
}
use packet_classifier.MemoryPool.Release.{destroy-given}
use packet_classifier.MemoryPool.Clients.{World, Step, Run, Run-create-IsValid, allocate-Placed}

program : Unit {0}
unfolding align_up allocate_numa_memory new_block link add_new_block create take allocate deallocate
    get_used_count free_count
program = tt

abbrev zeros : ℕ → ℕ
zeros p = 0

abbrev small : MemoryPool
small = record (empty_pool 24 (negsuc 0) zeros) {
  actual_object_size = 64;
  current_capacity_objects = 2;
  memory_blocks = (record { memory = 4096; capacity_bytes = 128 }) ∷ [];
  free_list_head = 4160;
  words = (link zeros 0 4096 64 2).0;
}

created_small : create 24 2 (negsuc 0) zeros (some 4096) ≡ created small
unfolding program
created_small = refl

first_answer : Answers (empty_pool 24 (negsuc 0) zeros) 2 (some 4096)
unfolding program
first_answer = record {
  fits = omega arith;
  countable = omega arith;
  aligned = λ p e. ground arith;
  disjoint = λ p e. tt;
  in_space = λ p e. ground arith;
}

abbrev start : World
start = record { pool = small; owned = [] }

abbrev held : World
held = record { pool = record small { free_list_head = small.words 4160 }; owned = 4160 ∷ [] }

used_once : Run start held
unfolding program
used_once =
    Run.next Run.here (Step.take_step start none 4160 held.pool (λ e. absurd (omega arith)) refl)

Run-create-IsValid_example : IsValid held.pool held.owned
Run-create-IsValid_example =
    Run-create-IsValid 24 2 (negsuc 0) zeros (some 4096) small held (omega arith) first_answer
      created_small used_once

allocate-Placed_example :
    ((allocate held.pool none ≡ no_memory)
      × (held.pool.free_list_head ≡ 0)
      × (block_given held.pool (objects_to_add held.pool) none ≡ []))
    ⊎ ((p : ℕ) × (pool' : MemoryPool) × (allocate held.pool none ≡ allocated p pool')
        × (count p held.owned ≡ 0)
        × Placed pool' p
        × (get_used_count pool' ≡ some (suc (length held.owned))))
allocate-Placed_example =
    allocate-Placed held.pool held.owned none Run-create-IsValid_example
      (λ e. unfold program in absurd (omega arith))

get_used_count-length_example : get_used_count held.pool ≡ some (length held.owned)
get_used_count-length_example =
    get_used_count-length held.pool held.owned Run-create-IsValid_example

-- Cache lines of 100 bytes, of which none is a power of two.
numa_request-IsAllowed_example : IsAllowed 100 40 true (numa_request 100 40 true)
numa_request-IsAllowed_example = numa_request-IsAllowed 100 40 true (omega arith)

hundred : numa_request 100 40 true ≡ posix_memalign 128 40
unfolding numa_request
hundred = refl

-- The fifth allocation finds no object and a new block; the sixth no memory.
abbrev ops : List Op
ops =
    allocates none
    ∷ allocates none
    ∷ deallocates 4160
    ∷ allocates none
    ∷ allocates (some 8192)
    ∷ shrinks
    ∷ grows 1 none
    ∷ grows 3 (some 12288)
    ∷ []

all_freed : (destroy (perform_all small ops)).1 ≡ 4096 ∷ 8192 ∷ 12288 ∷ []
unfolding program destroy clear allocate take deallocate grow perform_all
all_freed = refl

destroy-given_example :
    let made = create 24 2 (negsuc 0) zeros (some 4096) in
    let first = create_given 24 2 (negsuc 0) zeros (some 4096) in
    ((pool : MemoryPool) × (made ≡ created pool)
      × ((destroy (perform_all pool ops)).1 ≡ first ++ all_given pool ops))
    ⊎ (((made ≡ invalid_argument) ⊎ (made ≡ bad_alloc)) × (first ≡ []))
destroy-given_example = destroy-given 24 2 (negsuc 0) zeros (some 4096) ops
