-- ===== src/MemoryPool/Blocks.antt =====
-- `addNewBlock` of src/utils/memory_pool.cpp on a valid pool.
use native.Mathlib.Decide.{dec_lt}
use native.Mathlib.Nat.{suc-mul, mod-eq_of_lt}
use packet_classifier.Prelude.{
  ℕ, ◌↔◌, zero, suc, ◌+◌, ◌*◌, ◌%◌, ◌^◌, ◌≤◌, ◌<◌, ◌≡◌, ◌≢◌, refl, ◌⊎◌, inl, inr, true, false, List,
  [], ◌∷◌, ◌++◌, Option, none, some, ◌==◌, Bool-cases, arith, length, All, if◌then◌else◌, All-map,
}
use packet_classifier.NumaMemory.{allocate_numa_memory, get_or_else}
use packet_classifier.NumaMemory.Alignment.{alignment_final_line, allocate_numa_memory_lem}
use packet_classifier.MemoryPool.{
  cache_line_size, Block, MemoryPool, link, new_block, add_new_block,
}
use packet_classifier.Prelude.Bags.{count, count_none, All-count}
use packet_classifier.MemoryPool.Spread.{linked-Spread}
use packet_classifier.MemoryPool.Chain.{
  IsChain, linked, length-linked, link-IsChain, count-linked, count-linked_once,
}
use packet_classifier.MemoryPool.Invariant.{Within, Placed, IsValid, Disjoint, Answers}

outside :
    (bs : List Block) (size low high a : ℕ)
    → 0 < size
    → Disjoint bs low high
    → Within bs size a
    → (a + size ≤ low) ⊎ (high ≤ a)
outside [] size low high a h d w = absurd w
outside (b ∷ bs) size low high a h d w = elim w [
  | inl here ↦ omega arith
  | inr there ↦ outside bs size low high a h d.1 there
]

Within-append :
    (bs : List Block) (b : Block) (size a : ℕ) → Within bs size a → Within (bs ++ b ∷ []) size a
Within-append [] b size a w = absurd w
Within-append (c ∷ bs) b size a w = elim w [
  | inl here ↦ inl here
  | inr there ↦ inr (Within-append bs b size a there)
]

Within-last :
    (bs : List Block) (b : Block) (size a : ℕ)
    → b.memory ≤ a
    → a + size ≤ b.memory + b.capacity_bytes
    → Within (bs ++ b ∷ []) size a
Within-last [] b size a low high = inl (low, high)
Within-last (c ∷ bs) b size a low high = inr (Within-last bs b size a low high)

-- What holds of the objects of a block holds of all that are linked.
linked-All :
    (P : ℕ → Type 0) (current size left end : ℕ) (free : List ℕ)
    → size % 64 ≡ 0
    → current % 64 ≡ 0
    → current + left * size ≤ end
    → ((a : ℕ) → current ≤ a → a + size ≤ end → a % 64 ≡ 0 → P a)
    → All P free
    → All P (linked current size left free)
linked-All P current size zero end free s c fits p h = h
linked-All P current size (suc left) end free s c fits p h =
    let more : current + size + left * size ≤ end = ground (arith, suc-mul left size) in
    linked-All P (current + size) size left end (current ∷ free) s (omega arith) more
      (λ a low. p a (omega arith)) (p current (omega arith) (omega arith) c, h)

IsChain-cons :
    (words : ℕ → ℕ) (head : ℕ) (ps : List ℕ) → IsChain words head ps → (0 < length ps) ↔ (head ≢ 0)
IsChain-cons words head [] c = (λ h. omega arith, λ h. absurd (h c))
IsChain-cons words head (p ∷ ps) c = (λ h. ground arith, λ h. omega arith)

abbrev grown : MemoryPool → ℕ → ℕ → MemoryPool
grown pool n p =
    let (words, head) = link pool.words pool.free_list_head p pool.actual_object_size n in
    record pool {
      words = words;
      free_list_head = head;
      memory_blocks =
          pool.memory_blocks
          ++ (record { memory = p; capacity_bytes = n * pool.actual_object_size }) ∷ [];
      current_capacity_objects = pool.current_capacity_objects + n;
    }

linked-once :
    (p size n end a : ℕ) (free owned : List ℕ)
    → 0 < size
    → p + n * size ≤ end
    → (p ≤ a → a < end → count a free + count a owned ≡ 0)
    → count a free + count a owned ≤ 1
    → count a (linked p size n free) + count a owned ≤ 1
linked-once p size n end a free owned h fits blank once = elim (dec_lt a p) [
  | yes low ↦ rw (count-linked p size n end a free h fits (inl low)) once
  | no low ↦ elim (dec_lt a end) [
    | yes inside ↦
        let k = count-linked_once p size n end a free h fits in
        let z = blank (omega arith) inside in omega arith
    | no high ↦ rw (count-linked p size n end a free h fits (inr (omega arith))) once
  ]
]

-- An object that is free or handed out lies within the blocks.
placed_object :
    (pool : MemoryPool) (owned : List ℕ) (c : ℕ) (v : IsValid pool owned)
    → 0 < count c v.free + count c owned
    → Within pool.memory_blocks pool.actual_object_size c
placed_object pool owned c v h = elim (dec_lt 0 (count c v.free)) [
  | yes free ↦ (All-count (Placed pool) c v.free v.placed_free free).2
  | no taken ↦ (All-count (Placed pool) c owned v.placed_owned (omega arith)).2
]

-- No object of the pool lies in the new region.
new_region :
    (pool : MemoryPool) (owned : List ℕ) (n p a : ℕ) (xs : List ℕ)
    → IsValid pool owned
    → Answers pool n (some p)
    → All (Placed pool) xs
    → p ≤ a
    → a < p + n * pool.actual_object_size
    → count a xs ≡ 0
new_region pool owned n p a xs v ans placed low high = count_none a (Placed pool) xs placed (λ w.
    let o =
      outside pool.memory_blocks pool.actual_object_size p (p + n * pool.actual_object_size) a
        v.positive (ans.disjoint p refl) w.2 in
    omega arith)

-- The region starts a cache line.
on_line :
    (pool : MemoryPool) (owned : List ℕ) (n p : ℕ)
    → IsValid pool owned
    → Answers pool n (some p)
    → p % 64 ≡ 0
on_line pool owned n p v ans = rw (← alignment_final_line) (rw v.to_lines at (ans.aligned p refl))

grown-IsValid :
    (pool : MemoryPool) (owned : List ℕ) (n p : ℕ)
    → IsValid pool owned
    → 0 < p
    → Answers pool n (some p)
    → IsValid (grown pool n p) owned
grown-IsValid pool owned n p v h ans =
    let size : ℕ = pool.actual_object_size in
    let b : Block = record { memory = p; capacity_bytes = n * size } in
    let keep : (a : ℕ) → Placed pool a → Placed (grown pool n p) a =
      λ a w. (w.0, w.1, Within-append pool.memory_blocks b size a w.2) in
    record {
      free = linked p size n v.free;
      chain =
          link-IsChain pool.words pool.free_list_head p size n (p + n * size) v.free h v.positive
            (omega arith) (ans.in_space p refl)
            (λ a. new_region pool owned n p a v.free v ans v.placed_free) v.chain;
      once = λ a.
          linked-once p size n (p + n * size) a v.free owned v.positive (omega arith)
            (λ low high.
              let f = new_region pool owned n p a v.free v ans v.placed_free low high in
              let o = new_region pool owned n p a owned v ans v.placed_owned low high in
              omega arith)
            (v.once a);
      apart = linked-Spread p size n v.free owned v.apart (λ c h.
          outside pool.memory_blocks size p (p + n * size) c v.positive (ans.disjoint p refl)
            (placed_object pool owned c v h));
      total = let k = length-linked p size n v.free in let t = v.total in omega arith;
      to_lines = v.to_lines;
      positive = v.positive;
      lines = v.lines;
      placed_free =
          linked-All (Placed (grown pool n p)) p size n (p + n * size) v.free v.lines
            (on_line pool owned n p v ans) (omega arith)
            (λ a low high line.
              (omega arith, line, Within-last pool.memory_blocks b size a low high))
            (All-map keep v.free v.placed_free);
      placed_owned = All-map keep owned v.placed_owned;
      bounded = ans.countable;
    }

gives :
    (pool : MemoryPool) (n : ℕ) (answer : Option ℕ)
    → allocate_numa_memory cache_line_size
        (n * pool.actual_object_size % 2 ^ 64)
        pool.cache_align_objects
        answer
      ≡ (if n * pool.actual_object_size % 2 ^ 64 == 0 then 0 else get_or_else answer 0)
gives pool n answer = allocate_numa_memory_lem _ _ _ answer

-- A block is added whole, or nothing is changed.
pub add_new_block-IsValid :
    (pool : MemoryPool) (owned : List ℕ) (n : ℕ) (answer : Option ℕ)
    → IsValid pool owned
    → 0 < n
    → Answers pool n answer
    → (add_new_block pool n answer ≡ (pool, false))
      ⊎ ((pool' : MemoryPool) × (add_new_block pool n answer ≡ (pool', true))
          × IsValid pool' owned
          × (pool'.current_capacity_objects ≡ pool.current_capacity_objects + n)
          × (pool'.free_list_head ≢ 0))
unfolding add_new_block new_block
add_new_block-IsValid pool owned n none v h ans = inl (ground (arith, gives pool n none))
add_new_block-IsValid pool owned n (some zero) v h ans =
    inl (ground (arith, gives pool n (some zero)))
add_new_block-IsValid pool owned n (some (suc p)) v h ans =
    let size : ℕ = pool.actual_object_size in
    let whole : n * size % 2 ^ 64 ≡ n * size = mod-eq_of_lt ans.fits in
    let sum : (pool.current_capacity_objects + n) % 2 ^ 64 ≡ pool.current_capacity_objects + n =
      mod-eq_of_lt ans.countable in
    let w = grown-IsValid pool owned n (suc p) v (omega arith) ans in
    elim (Bool-cases (n * size == 0)) [
      | inl nothing ↦ inl (ground (arith, gives pool n (some (suc p))))
      | inr some_bytes ↦ inr (
        grown pool n (suc p),
        ground (arith, gives pool n (some (suc p))),
        w,
        refl,
        (IsChain-cons _ _ w.free w.chain).0
            (let after = w.total in let before = v.total in omega arith),
      )
    ]
