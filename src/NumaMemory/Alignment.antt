-- ===== src/NumaMemory/Alignment.antt =====
-- The alignment that `allocateNumaMemory` of src/utils/memory_pool.cpp asks for.
use packet_classifier.Prelude.{
  ℕ, ◌%◌, ◌^◌, ◌≤◌, ◌<◌, ◌≡◌, refl, inl, inr, Bool, true, false, ◌||◌, not, Option, ltb, ◌==◌,
  if◌then◌else◌, arith, Bool-cases,
}
use packet_classifier.Prelude.Bits.{IsPower}
use packet_classifier.NumaMemory.{
  max_align, pointer_size, has_two_bits, get_or_else, to_power, to_multiple, fallback,
  base_alignment, alignment_final, Request, no_request, posix_memalign, malloc, numa_request,
  allocate_numa_memory,
}
use packet_classifier.NumaMemory.Powers.{
  has_two_bits-IsPower, IsPower-one_bit, IsPower-positive, to_power-lt, to_multiple-lt,
  to_power-IsPower, to_multiple-IsPower,
}

abbrev aligned_at : ℕ → Bool → ℕ
aligned_at line align =
    let base = base_alignment line align in to_multiple line base (to_power line base)

abbrev unfit : ℕ → Bool
unfit a = a == 0 || (has_two_bits a || not (a % pointer_size == 0))

fallback_lem : fallback ≡ 16
unfolding fallback
fallback_lem = refl

alignment_final-fit :
    (line : ℕ) (align : Bool)
    → unfit (aligned_at line align) ≡ false
    → alignment_final line align ≡ aligned_at line align
unfolding alignment_final
alignment_final-fit line align e = rw (e, alignment_final) refl

alignment_final-unfit :
    (line : ℕ) (align : Bool)
    → unfit (aligned_at line align) ≡ true
    → alignment_final line align ≡ 16
unfolding alignment_final
alignment_final-unfit line align e = rw (e, alignment_final) fallback_lem

base-lt : (line : ℕ) (align : Bool) → line < 2 ^ 64 → base_alignment line align < 2 ^ 64
base-lt line align h = ground arith

-- What posix_memalign takes: a power of two, and a multiple of the size of a pointer.
pub record IsAlignment (a : ℕ) : Type 0 where
  pub power : IsPower a
  pub multiple : a % pointer_size ≡ 0

alignment_final-IsAlignment :
    (line : ℕ) (align : Bool) → line < 2 ^ 64 → IsAlignment (alignment_final line align)
alignment_final-IsAlignment line align h =
    let base = base_alignment line align in
    let small = base-lt line align h in
    let word = to_multiple-lt line base (to_power line base) h (to_power-lt line base h small) in
    elim (Bool-cases (unfit (aligned_at line align))) [
      | inl bad ↦
          rw (alignment_final-unfit line align bad) (record { power = (4, refl); multiple = refl })
      | inr good ↦ rw (alignment_final-fit line align good) (record {
        power = has_two_bits-IsPower (aligned_at line align) word (ground arith) (ground arith);
        multiple = ground arith;
      })
    ]

alignment_final-le :
    (line : ℕ) (align : Bool)
    → line ≤ 2 ^ 63
    → base_alignment line align ≤ alignment_final line align
alignment_final-le line align h =
    let base = base_alignment line align in
    let small : base ≤ 2 ^ 63 = ground arith in
    let (power, above, word) = to_power-IsPower line base small in
    let (multiple, power', above') = to_multiple-IsPower line base (to_power line base) power in
    let word' : aligned_at line align < 2 ^ 64 =
      to_multiple-lt line base (to_power line base) (omega arith) word in
    let fit : unfit (aligned_at line align) ≡ false =
      let one = IsPower-one_bit (aligned_at line align) word' power' in
      let positive = IsPower-positive (aligned_at line align) power' in ground arith in
    rw (alignment_final-fit line align fit) (omega arith)

-- At the size of a cache line that the header gives.
pub alignment_final_line : alignment_final 64 true ≡ 64
unfolding alignment_final
alignment_final_line = refl

pub allocate_numa_memory_lem :
    (line bytes : ℕ) (align : Bool) (answer : Option ℕ)
    → allocate_numa_memory line bytes align answer
      ≡ (if bytes == 0 then 0 else get_or_else answer 0)
unfolding allocate_numa_memory numa_request
allocate_numa_memory_lem line bytes align answer = elim (Bool-cases (bytes == 0)) [
  | inl nothing ↦ rw (nothing, allocate_numa_memory) refl
  | inr some_bytes ↦ elim (Bool-cases (align || ltb max_align (alignment_final line align))) [
    | inl memalign ↦ rw (some_bytes, memalign, allocate_numa_memory) refl
    | inr natural ↦ rw (some_bytes, natural, allocate_numa_memory) refl
  ]
]

-- What is asked of the system.
abbrev pub IsAllowed : ℕ → ℕ → Bool → Request → Type 0
IsAllowed line bytes align no_request = bytes ≡ 0
IsAllowed line bytes align (posix_memalign a n) =
    IsAlignment a × (0 < n) × (n ≡ bytes) × (line ≤ 2 ^ 63 → base_alignment line align ≤ a)
IsAllowed line bytes align (malloc n) = (0 < n) × (n ≡ bytes) × (align ≡ false)

-- Whatever the size of a cache line is, the request has as many bytes as were asked for, and no bytes
-- are no request. posix_memalign is called with a power of two that is a multiple of the size of a
-- pointer and, if the size of a cache line is at most 2 ^ 63, not below the alignment that was asked
-- for. malloc is called only where no alignment to cache lines was asked for.
pub numa_request-IsAllowed :
    (cache_line_size bytes : ℕ) (align_to_cache_line : Bool)
    → cache_line_size < 2 ^ 64
    → IsAllowed cache_line_size bytes align_to_cache_line
        (numa_request cache_line_size bytes align_to_cache_line)
unfolding numa_request
numa_request-IsAllowed line bytes align h = elim (Bool-cases (bytes == 0)) [
  | inl nothing ↦ rw (nothing, numa_request) (ground arith)
  | inr some_bytes ↦ elim (Bool-cases (align || ltb max_align (alignment_final line align))) [
    | inl memalign ↦
        rw (some_bytes, memalign, numa_request)
          (
            alignment_final-IsAlignment line align h,
            ground arith,
            refl,
            λ k. alignment_final-le line align k,
          )
    | inr natural ↦ rw (some_bytes, natural, numa_request) (ground arith, refl, ground arith)
  ]
]
