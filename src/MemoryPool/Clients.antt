-- ===== src/MemoryPool/Clients.antt =====
-- The pool with its clients: steps that allocate, free, write and grow, from a new pool.
use packet_classifier.Prelude.{
  ℕ, zero, suc, ◌+◌, ◌%◌, ◌^◌, ◌≤◌, ◌<◌, ◌≡◌, refl, ◌⊎◌, inl, inr, List, [], ◌∷◌, Option, some,
  ◌==◌, ◌||◌, false, Bool-cases, arith, length, max,
}
use packet_classifier.Prelude.Int.{ℤ}
use packet_classifier.NumaMemory.{align_up}
use packet_classifier.MemoryPool.{
  MemoryPool, allocated, no_memory, created, create, empty_pool, write, add_new_block, allocate,
  deallocate, get_used_count, grow, objects_to_add,
}
use packet_classifier.Prelude.Bags.{count, without, count-without, length-without, All-without}
use packet_classifier.MemoryPool.Invariant.{Placed, IsValid, Answers}
use packet_classifier.MemoryPool.Blocks.{add_new_block-IsValid}
use packet_classifier.MemoryPool.Given.{block_given}
use packet_classifier.MemoryPool.Release.{add_new_block-given}
use packet_classifier.MemoryPool.Objects.{
  take-IsValid, deallocate-IsValid, write-IsValid, get_used_count-length,
}

-- The pool and the objects that clients hold.
pub record World : Type 0 where
  pub pool : MemoryPool
  pub owned : List ℕ

pub data Step : World → World → Type 0 where
  take_step :
      (w : World) (answer : Option ℕ) (p : ℕ) (pool' : MemoryPool)
      → (w.pool.free_list_head ≡ 0 → Answers w.pool (objects_to_add w.pool) answer)
      → allocate w.pool answer ≡ allocated p pool'
      → Step w (record { pool = pool'; owned = p ∷ w.owned })
  free_step :
      (w : World) (p : ℕ)
      → 0 < count p w.owned
      → Step w (record { pool = deallocate w.pool p; owned = without p w.owned })
  write_step :
      (w : World) (p value : ℕ)
      → 0 < count p w.owned
      → Step w (record {
        pool = record (w.pool) { words = write w.pool.words p value };
        owned = w.owned;
      })
  grow_step :
      (w : World) (n : ℕ) (answer : Option ℕ)
      → Answers w.pool n answer
      → Step w (record { pool = (grow w.pool n answer).0; owned = w.owned })

pub data Run (start : World) : World → Type 0 where
  here : Run start start
  next : {w w' : World} → Run start w → Step w w' → Run start w'

-- A size that does not overflow is rounded up to the least multiple of 64 that is not below it.
pub align_up_lem :
    (size : ℕ)
    → size + 64 ≤ 2 ^ 64
    → (align_up size 64 % 64 ≡ 0) × (size ≤ align_up size 64) × (align_up size 64 < size + 64)
unfolding align_up
align_up_lem size h = (omega arith, omega arith, omega arith)

pub allocate-IsValid :
    (pool : MemoryPool) (owned : List ℕ) (answer : Option ℕ)
    → IsValid pool owned
    → (pool.free_list_head ≡ 0 → Answers pool (objects_to_add pool) answer)
    → ((allocate pool answer ≡ no_memory)
        × (pool.free_list_head ≡ 0)
        × (add_new_block pool (objects_to_add pool) answer ≡ (pool, false)))
      ⊎ ((p : ℕ) × (pool' : MemoryPool) × (allocate pool answer ≡ allocated p pool')
          × IsValid pool' (p ∷ owned))
unfolding allocate
allocate-IsValid pool owned answer v ans = elim (Bool-cases (pool.free_list_head == 0)) [
  | inl empty ↦
      let more : 0 < objects_to_add pool = ground arith in
      elim (add_new_block-IsValid pool owned (objects_to_add pool) answer v more
        (ans (ground arith))) [
          | inl failed ↦ inl (ground arith, ground arith, failed)
          | inr (pool', does, v', capacity, head) ↦
              let (p, pool'', took, w, k) = take-IsValid pool' owned v' head in
              inr (p, pool'', ground arith, w)
        ]
  | inr some_free ↦
      let (p, pool', took, w, k) = take-IsValid pool owned v (ground arith) in
      inr (p, pool', ground arith, w)
]

grow-IsValid :
    (pool : MemoryPool) (owned : List ℕ) (n : ℕ) (answer : Option ℕ)
    → Answers pool n answer
    → IsValid pool owned
    → IsValid (grow pool n answer).0 owned
unfolding grow add_new_block
grow-IsValid pool owned zero answer ans v = v
grow-IsValid pool owned (suc n) answer ans v =
    elim (add_new_block-IsValid pool owned (suc n) answer v (omega arith) ans) [
      | inl failed ↦ rw (grow, failed) v
      | inr (pool', does, v', capacity, head) ↦ rw (grow, does) v'
    ]

Step-IsValid : {w w' : World} → Step w w' → IsValid w.pool w.owned → IsValid w'.pool w'.owned
Step-IsValid (take_step w answer p pool' ans does) v =
    elim (allocate-IsValid w.pool w.owned answer v ans) [
      | inl (failed, empty, kept) ↦ absurd cc
      | inr (q, pool'', took, v') ↦
          let same : (q ≡ p) × (pool'' ≡ pool') = (cc, cc) in rw (← same.0, ← same.1) v'
    ]
Step-IsValid (free_step w p held) v =
    let placed = All-without (Placed w.pool) p w.owned held v.placed_owned in
    deallocate-IsValid w.pool p w.owned (without p w.owned) v
      (let positive = placed.0.0 in omega arith) (λ a. count-without p a w.owned held)
      (length-without p w.owned held) placed
Step-IsValid (write_step w p value held) v = write-IsValid w.pool p value w.owned v held
Step-IsValid (grow_step w n answer ans) v = grow-IsValid w.pool w.owned n answer ans v

pub Run-IsValid :
    {start w : World} → Run start w → IsValid start.pool start.owned → IsValid w.pool w.owned
Run-IsValid here v = v
Run-IsValid (next r s) v = Step-IsValid s (Run-IsValid r v)

empty-IsValid :
    (object_size : ℕ) (node : ℤ) (words : ℕ → ℕ)
    → object_size + 64 ≤ 2 ^ 64
    → IsValid (empty_pool object_size node words) []
empty-IsValid object_size node words h =
    let size = align_up_lem (max object_size 8) (omega arith) in
    record {
      free = [];
      chain = refl;
      once = λ a. omega arith;
      apart = λ a b h. absurd (omega arith);
      total = refl;
      to_lines = refl;
      positive = omega arith;
      lines = size.0;
      placed_free = tt;
      placed_owned = tt;
      bounded = omega arith;
    }

-- A new pool is valid, with nothing handed out.
create-IsValid :
    (object_size n : ℕ) (node : ℤ) (words : ℕ → ℕ) (answer : Option ℕ) (pool : MemoryPool)
    → object_size + 64 ≤ 2 ^ 64
    → Answers (empty_pool object_size node words) n answer
    → create object_size n node words answer ≡ created pool
    → IsValid pool []
unfolding create
create-IsValid object_size n node words answer pool h ans does =
    let empty : IsValid (empty_pool object_size node words) [] =
      empty-IsValid object_size node words h in
    elim (Bool-cases (object_size == 0 || n == 0)) [
      | inl invalid ↦ absurd (ground arith)
      | inr usable ↦
          elim (add_new_block-IsValid (empty_pool object_size node words) [] n answer empty
            (ground arith) ans) [
              | inl failed ↦ absurd (ground arith)
              | inr (pool', does', v, capacity, head) ↦
                  let same : pool' ≡ pool = ground arith in rw (← same) v
            ]
    ]

-- From a new pool, whatever its clients allocate and grow, and whatever they free or write of what
-- they hold, where posix_memalign keeps its promise and no size overflows, the free objects and
-- those that are handed out are objects of the blocks, none is there twice, no two share a byte,
-- and none is missing.
pub Run-create-IsValid :
    (object_size n : ℕ) (node : ℤ) (words : ℕ → ℕ) (answer : Option ℕ) (pool : MemoryPool)
    (w : World)
    → object_size + 64 ≤ 2 ^ 64
    → Answers (empty_pool object_size node words) n answer
    → create object_size n node words answer ≡ created pool
    → Run (record { pool = pool; owned = [] }) w
    → IsValid w.pool w.owned
Run-create-IsValid object_size n node words answer pool w h ans does r =
    Run-IsValid r (create-IsValid object_size n node words answer pool h ans does)

nothing_given :
    (pool : MemoryPool) (answer : Option ℕ)
    → add_new_block pool (objects_to_add pool) answer ≡ (pool, false)
    → block_given pool (objects_to_add pool) answer ≡ []
nothing_given pool answer kept = elim (add_new_block-given pool (objects_to_add pool) answer) [
  | inl (failed, nothing) ↦ nothing
  | inr (pool', does, blocks) ↦ absurd cc
]

-- An allocation from a valid pool fails only where nothing is free and the system gives no memory
-- for a new block. Else it gives an object of the pool that is not handed out, at the start of a
-- cache line, and one object more is counted as used.
pub allocate-Placed :
    (pool : MemoryPool) (owned : List ℕ) (answer : Option ℕ)
    → IsValid pool owned
    → (pool.free_list_head ≡ 0 → Answers pool (objects_to_add pool) answer)
    → ((allocate pool answer ≡ no_memory)
        × (pool.free_list_head ≡ 0)
        × (block_given pool (objects_to_add pool) answer ≡ []))
      ⊎ ((p : ℕ) × (pool' : MemoryPool) × (allocate pool answer ≡ allocated p pool')
          × (count p owned ≡ 0)
          × Placed pool' p
          × (get_used_count pool' ≡ some (suc (length owned))))
allocate-Placed pool owned answer v ans = elim (allocate-IsValid pool owned answer v ans) [
  | inl (failed, empty, kept) ↦ inl (failed, empty, nothing_given pool answer kept)
  | inr (p, pool', does, w) ↦ inr (
    p,
    pool',
    does,
    (let once = w.once p in ground arith),
    w.placed_owned.0,
    get_used_count-length pool' (p ∷ owned) w,
  )
]
