-- ===== src/NumaMemory.antt =====
-- `allocateNumaMemory` of src/utils/memory_pool.cpp: which alignment it asks for, and of whom. The
-- value of CACHE_LINE_SIZE is an argument, since a build may define it; alignof(std::max_align_t) and
-- sizeof(void*) are those of a 64-bit platform.
pub mod Powers
pub mod Alignment
use Prim.Native.Nat.{bit_and}
use packet_classifier.Prelude.{
  ℕ, zero, suc, ◌+◌, ◌-◌, ◌*◌, ◌/◌, ◌%◌, ◌^◌, max, Bool, ◌||◌, not, Option, none, some, ltb, ◌==◌,
  if◌then◌else◌,
}

abbrev pub max_align : ℕ
max_align = 16

abbrev pub pointer_size : ℕ
pointer_size = 8

-- The alignments are powers of two, so `& ~(alignment - 1)` rounds down to a multiple.
unfoldable pub align_up : ℕ → ℕ → ℕ
align_up size alignment = (size + alignment - 1) % 2 ^ 64 / alignment * alignment

-- `(x & (x - 1)) != 0`
unfoldable pub has_two_bits : ℕ → Bool
has_two_bits x = not (bit_and x ((x + 2 ^ 64 - 1) % 2 ^ 64) == 0)

-- The loops that double `pot_alignment` up to a number; `none` is the overflow. A word has 64 bits,
-- so the fuel of the calls, 65, is enough.
unfoldable pub double_up : ℕ → ℕ → ℕ → Option ℕ
double_up zero pot base = none
double_up (suc fuel) pot base =
    let next = pot * 2 % 2 ^ 64 in
    let rest = double_up fuel next base in
    if ltb pot base then (if next == 0 then none else rest) else some pot

abbrev pub get_or_else : Option ℕ → ℕ → ℕ
get_or_else none x = x
get_or_else (some p) x = p

-- The first step: a power of two.
unfoldable pub to_power : ℕ → ℕ → ℕ
unfolding has_two_bits double_up
to_power cache_line_size base =
    if has_two_bits base || base == 0
    then get_or_else (double_up 65 1 base) cache_line_size
    else base

-- The second step: a multiple of the size of a pointer.
unfoldable pub to_multiple : ℕ → ℕ → ℕ → ℕ
unfolding has_two_bits double_up align_up
to_multiple cache_line_size base a =
    let r = align_up a pointer_size in
    if a % pointer_size == 0
    then a
    else if has_two_bits r || r == 0
    then get_or_else (double_up 65 1 (max base pointer_size)) cache_line_size
    else r

-- The last resort. Its loop has no test of an overflow, which does not occur at these numbers.
unfoldable pub fallback : ℕ
unfolding has_two_bits double_up
fallback =
    let a = max max_align pointer_size in
    if has_two_bits a then get_or_else (double_up 65 1 a) a else a

abbrev pub base_alignment : ℕ → Bool → ℕ
base_alignment cache_line_size align_to_cache_line =
    if align_to_cache_line then cache_line_size else max_align

unfoldable pub alignment_final : ℕ → Bool → ℕ
unfolding to_power to_multiple fallback has_two_bits
alignment_final cache_line_size align_to_cache_line =
    let base = base_alignment cache_line_size align_to_cache_line in
    let a = to_multiple cache_line_size base (to_power cache_line_size base) in
    if a == 0 || (has_two_bits a || not (a % pointer_size == 0)) then fallback else a

-- The call that is made.
pub data Request : Type 0 where
  no_request : Request
  posix_memalign : ℕ → ℕ → Request
  malloc : ℕ → Request

unfoldable pub numa_request : ℕ → ℕ → Bool → Request
unfolding alignment_final
numa_request cache_line_size bytes align_to_cache_line =
    let a = alignment_final cache_line_size align_to_cache_line in
    if bytes == 0
    then no_request
    else if align_to_cache_line || ltb max_align a
    then posix_memalign a bytes
    else malloc bytes

-- `answer` is the memory that the call gives, `none` where it fails; 0 is null.
unfoldable pub allocate_numa_memory : ℕ → ℕ → Bool → Option ℕ → ℕ
unfolding numa_request
allocate_numa_memory cache_line_size bytes align_to_cache_line answer =
    elim (numa_request cache_line_size bytes align_to_cache_line) [
      | no_request ↦ 0
      | posix_memalign a n ↦ get_or_else answer 0
      | malloc n ↦ get_or_else answer 0
    ]
