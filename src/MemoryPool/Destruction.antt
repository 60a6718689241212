-- ===== src/MemoryPool/Destruction.antt =====
-- The destructors of src/utils/memory_pool.cpp, the methods of its header that only read a field or
-- pass a call on, and what has no effect on a pool. What is freed is a list of addresses.
use packet_classifier.Prelude.{ℕ, Bool, List, [], ◌∷◌, ◌++◌, ◌==◌, if◌then◌else◌}
use packet_classifier.Prelude.Int.{ℤ}
use packet_classifier.NumaMemory.{align_up}
use packet_classifier.MemoryPool.{Block, MemoryPool}

abbrev pub deallocate_numa_memory : ℕ → List ℕ
deallocate_numa_memory memory = memory ∷ []

abbrev pub destroy_block : Block → List ℕ
destroy_block b = if b.memory == 0 then [] else deallocate_numa_memory b.memory

-- `memory_blocks.clear()`
unfoldable pub clear : List Block → List ℕ
clear [] = []
clear (b ∷ bs) = destroy_block b ++ clear bs

unfoldable pub destroy : MemoryPool → MemoryPool × List ℕ
unfolding clear
destroy pool = (record pool { memory_blocks = []; free_list_head = 0 }, clear pool.memory_blocks)

-- It only prints.
abbrev pub shrink_to_fit : MemoryPool → MemoryPool
shrink_to_fit pool = pool

abbrev pub align_pointer : ℕ → ℕ → ℕ
align_pointer ptr alignment = align_up ptr alignment

abbrev pub get_object_size : MemoryPool → ℕ
get_object_size pool = pool.actual_object_size

abbrev pub get_total_capacity : MemoryPool → ℕ
get_total_capacity pool = pool.current_capacity_objects

abbrev pub get_numa_node_id : MemoryPool → ℤ
get_numa_node_id pool = pool.numa_node

abbrev pub is_cache_aligned : MemoryPool → Bool
is_cache_aligned pool = pool.cache_align_objects
