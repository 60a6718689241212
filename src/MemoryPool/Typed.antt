-- ===== src/MemoryPool/Typed.antt =====
-- TypedMemoryPool of include/utils/memory_pool.h: the pool for a type, whose `sizeof` is an argument.
use packet_classifier.Prelude.{ℕ, Bool, Option}
use packet_classifier.Prelude.Int.{ℤ}
use packet_classifier.MemoryPool
use packet_classifier.MemoryPool.{MemoryPool, Created, Allocated}
use packet_classifier.MemoryPool.Destruction

abbrev pub create_typed : ℕ → ℕ → ℤ → (ℕ → ℕ) → Option ℕ → Created
create_typed size_of initial_capacity node words answer =
    MemoryPool.create size_of initial_capacity node words answer

abbrev pub allocate_typed : MemoryPool → Option ℕ → Allocated
allocate_typed pool answer = MemoryPool.allocate pool answer

abbrev pub deallocate_typed : MemoryPool → ℕ → MemoryPool
deallocate_typed pool p = MemoryPool.deallocate pool p

abbrev pub get_object_size : MemoryPool → ℕ
get_object_size pool = Destruction.get_object_size pool

abbrev pub get_total_capacity : MemoryPool → ℕ
get_total_capacity pool = Destruction.get_total_capacity pool

abbrev pub get_used_count : MemoryPool → Option ℕ
get_used_count pool = MemoryPool.get_used_count pool

abbrev pub get_numa_node_id : MemoryPool → ℤ
get_numa_node_id pool = Destruction.get_numa_node_id pool

abbrev pub is_cache_aligned : MemoryPool → Bool
is_cache_aligned pool = Destruction.is_cache_aligned pool
