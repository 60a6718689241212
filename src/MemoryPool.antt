-- ===== src/MemoryPool.antt =====
-- src/utils/memory_pool.cpp and its header. An address is a number, 0 is null, and a free object
-- holds the address of the next one in its first word: the memory is a function from the address of
-- an object to its first word. The answer of posix_memalign is an argument of the calls that ask it.
pub mod Chain
pub mod Invariant
pub mod Spread
pub mod Blocks
pub mod Objects
pub mod Clients
pub mod Destruction
pub mod Typed
pub mod Given
pub mod Release
use packet_classifier.Prelude.{
  ℕ, zero, suc, ◌+◌, ◌-◌, ◌*◌, ◌/◌, ◌%◌, ◌^◌, max, Bool, true, false, List, [], ◌∷◌, ◌++◌, Option,
  none, some, ltb, ◌==◌, if◌then◌else◌,
}
use packet_classifier.Prelude.Int.{ℤ}
use packet_classifier.NumaMemory.{pointer_size, align_up, allocate_numa_memory}

abbrev pub cache_line_size : ℕ
cache_line_size = 64

pub record Block : Type 0 where
  pub memory : ℕ
  pub capacity_bytes : ℕ

pub record MemoryPool : Type 0 where
  pub requested_object_size : ℕ
  pub actual_object_size : ℕ
  pub current_capacity_objects : ℕ
  pub memory_blocks : List Block
  pub free_list_head : ℕ
  pub numa_node : ℤ
  pub cache_align_objects : Bool
  pub words : ℕ → ℕ

abbrev pub write : (ℕ → ℕ) → ℕ → ℕ → ℕ → ℕ
write words p value q = if p == q then value else words q

-- The constructor of Block: null memory is the exception.
unfoldable pub new_block : ℕ → Bool → Option ℕ → Option Block
new_block bytes align_to_cache_line answer =
    let p = allocate_numa_memory cache_line_size bytes align_to_cache_line answer in
    if p == 0 then none else some (record { memory = p; capacity_bytes = bytes })

-- The loop of `addNewBlock`: the words and the head of the free list after the remaining objects.
-- A pointer has 64 bits.
unfoldable pub link : (ℕ → ℕ) → ℕ → ℕ → ℕ → ℕ → (ℕ → ℕ) × ℕ
link words head current size zero = (words, head)
link words head current size (suc left) =
    link (write words current head) current ((current + size) % 2 ^ 64) size left

unfoldable pub add_new_block : MemoryPool → ℕ → Option ℕ → MemoryPool × Bool
unfolding new_block link
add_new_block pool num_objects answer =
    if num_objects == 0
    then (pool, true)
    else elim (new_block (num_objects * pool.actual_object_size % 2 ^ 64) pool.cache_align_objects
        answer) [
          | none ↦ (pool, false)
          | some b ↦
              let (words, head) =
                link pool.words pool.free_list_head b.memory pool.actual_object_size num_objects in
              (
                record pool {
                  words = words;
                  free_list_head = head;
                  memory_blocks = pool.memory_blocks ++ b ∷ [];
                  current_capacity_objects = (pool.current_capacity_objects + num_objects) % 2 ^ 64;
                },
                true,
              )
        ]

pub data Created : Type 0 where
  created : MemoryPool → Created
  invalid_argument bad_alloc : Created

-- The state in which the constructor adds its block: objects are always aligned to cache lines, and
-- the words of the memory are whatever they were.
abbrev pub empty_pool : ℕ → ℤ → (ℕ → ℕ) → MemoryPool
empty_pool object_size node words = record {
  requested_object_size = object_size;
  actual_object_size = align_up (max object_size pointer_size) cache_line_size;
  current_capacity_objects = 0;
  memory_blocks = [];
  free_list_head = 0;
  numa_node = node;
  cache_align_objects = true;
  words = words;
}

unfoldable pub create : ℕ → ℕ → ℤ → (ℕ → ℕ) → Option ℕ → Created
unfolding add_new_block
create object_size initial_capacity node words answer =
    let (pool, added) = add_new_block (empty_pool object_size node words) initial_capacity answer in
    if object_size == 0
    then invalid_argument
    else if initial_capacity == 0
    then invalid_argument
    else if added
    then created pool
    else bad_alloc

-- The exceptions of `allocate`; the second comes after a block is added, so it has the new state.
pub data Allocated : Type 0 where
  allocated : ℕ → MemoryPool → Allocated
  no_memory : Allocated
  internal_error : MemoryPool → Allocated

abbrev pub objects_to_add : MemoryPool → ℕ
objects_to_add pool =
    if ltb 0 pool.current_capacity_objects then pool.current_capacity_objects else 1024

-- The end of `allocate`, from the second test of the head.
unfoldable pub take : MemoryPool → Allocated
take pool =
    if pool.free_list_head == 0
    then internal_error pool
    else allocated pool.free_list_head
        (record pool { free_list_head = pool.words pool.free_list_head })

unfoldable pub allocate : MemoryPool → Option ℕ → Allocated
unfolding add_new_block take
allocate pool answer =
    let (grown, added) = add_new_block pool (objects_to_add pool) answer in
    if pool.free_list_head == 0 then (if added then take grown else no_memory) else take pool

unfoldable pub deallocate : MemoryPool → ℕ → MemoryPool
deallocate pool p =
    if p == 0
    then pool
    else record pool { words = write pool.words p pool.free_list_head; free_list_head = p }

-- The loop of `getUsedCount`, on fuel: `none` where the list does not end.
unfoldable pub free_count : ℕ → (ℕ → ℕ) → ℕ → Option ℕ
free_count zero words current = if current == 0 then some 0 else none
free_count (suc fuel) words current =
    let rest = free_count fuel words (words current) in
    if current == 0 then some 0 else elim rest [ none ↦ none | some n ↦ some (suc n) ]

unfoldable pub get_used_count : MemoryPool → Option ℕ
unfolding free_count
get_used_count pool =
    elim (free_count pool.current_capacity_objects pool.words pool.free_list_head) [
      | none ↦ none
      | some n ↦ some ((pool.current_capacity_objects + 2 ^ 64 - n) % 2 ^ 64)
    ]

unfoldable pub grow : MemoryPool → ℕ → Option ℕ → MemoryPool × Bool
unfolding add_new_block
grow pool additional answer = add_new_block pool additional answer
