-- ===== src/MemoryPool/Objects.antt =====
-- `allocate`, `deallocate` and `getUsedCount` of src/utils/memory_pool.cpp, and the writes of
-- clients, on a valid pool.
use packet_classifier.Prelude.{
  ℕ, suc, ◌+◌, ◌≤◌, ◌<◌, ◌≡◌, ◌≢◌, refl, ap, List, [], ◌∷◌, some, arith, length, All,
}
use packet_classifier.MemoryPool.{MemoryPool, write, take, allocated, deallocate, get_used_count}
use packet_classifier.Prelude.Bags.{count}
use packet_classifier.MemoryPool.Chain.{IsChain, write-IsChain, written, free_count-length}
use packet_classifier.MemoryPool.Invariant.{Placed, Spread, IsValid}

IsChain-head :
    (words : ℕ → ℕ) (head : ℕ) (ps : List ℕ)
    → IsChain words head ps
    → head ≢ 0
    → (q : ℕ) × (qs : List ℕ) × (ps ≡ q ∷ qs)
IsChain-head words head [] c h = absurd (h c)
IsChain-head words head (p ∷ ps) c h = (p, ps, refl)

pub take-IsValid :
    (pool : MemoryPool) (owned : List ℕ)
    → IsValid pool owned
    → pool.free_list_head ≢ 0
    → (p : ℕ) × (pool' : MemoryPool) × (take pool ≡ allocated p pool')
      × IsValid pool' (p ∷ owned)
      × (pool'.current_capacity_objects ≡ pool.current_capacity_objects)
unfolding take
take-IsValid pool owned v h =
    let (p, ps, eq) = IsChain-head pool.words pool.free_list_head v.free v.chain h in
    let c : IsChain pool.words pool.free_list_head (p ∷ ps) = rw eq at v.chain in
    let placed : All (Placed pool) (p ∷ ps) = rw eq at v.placed_free in
    let once : (a : ℕ) → count a (p ∷ ps) + count a owned ≤ 1 = rw eq at v.once in
    let apart : Spread pool.actual_object_size (p ∷ ps) owned = rw eq at v.apart in
    let total : length (p ∷ ps) + length owned ≡ pool.current_capacity_objects = rw eq at v.total in
    (
      p,
      record pool { free_list_head = pool.words pool.free_list_head },
      ground arith,
      record {
        free = ps;
        chain = rw c.0 c.2;
        once = λ a. let k = once a in ground arith;
        apart = λ a b h k. apart a b (ground arith) (ground arith);
        total = omega arith;
        to_lines = v.to_lines;
        positive = v.positive;
        lines = v.lines;
        placed_free = placed.1;
        placed_owned = (placed.0, v.placed_owned);
        bounded = v.bounded;
      },
      refl,
    )

abbrev freed : MemoryPool → ℕ → MemoryPool
freed pool p = record pool { words = write pool.words p pool.free_list_head; free_list_head = p }

pub deallocate-IsValid :
    (pool : MemoryPool) (p : ℕ) (owned owned' : List ℕ)
    → IsValid pool owned
    → p ≢ 0
    → ((a : ℕ) → count a owned ≡ count a (p ∷ owned'))
    → length owned ≡ suc (length owned')
    → All (Placed pool) (p ∷ owned')
    → IsValid (deallocate pool p) owned'
unfolding deallocate
deallocate-IsValid pool p owned owned' v h same shorter placed =
    let eq : deallocate pool p ≡ freed pool p = ground arith in
    let k = v.once p in
    let there = same p in
    let t = v.total in
    rw eq (record {
      free = p ∷ v.free;
      chain = (
        refl,
        h,
        rw (written pool.words p pool.free_list_head) (
            write-IsChain pool.words p pool.free_list_head pool.free_list_head v.free (ground arith)
              v.chain),
      );
      once = λ a. let k = v.once a in let e = same a in ground arith;
      apart =
          λ a b h k. v.apart a b (let e = same a in ground arith) (let e = same b in ground arith);
      total = omega arith;
      to_lines = v.to_lines;
      positive = v.positive;
      lines = v.lines;
      placed_free = (placed.0, v.placed_free);
      placed_owned = placed.1;
      bounded = v.bounded;
    })

-- A holder writes to an object that is handed out.
pub write-IsValid :
    (pool : MemoryPool) (p value : ℕ) (owned : List ℕ)
    → IsValid pool owned
    → 0 < count p owned
    → IsValid (record pool { words = write pool.words p value }) owned
write-IsValid pool p value owned v h = record {
  free = v.free;
  chain =
      write-IsChain pool.words p value pool.free_list_head v.free (let k = v.once p in omega arith)
        v.chain;
  once = v.once;
  apart = v.apart;
  total = v.total;
  to_lines = v.to_lines;
  positive = v.positive;
  lines = v.lines;
  placed_free = v.placed_free;
  placed_owned = v.placed_owned;
  bounded = v.bounded;
}

-- In a valid pool the count of the used objects ends and is the number of the objects that are
-- handed out.
pub get_used_count-length :
    (pool : MemoryPool) (owned : List ℕ)
    → IsValid pool owned
    → get_used_count pool ≡ some (length owned)
unfolding get_used_count
get_used_count-length pool owned v =
    let t = v.total in
    let b = v.bounded in
    rw
      (
        get_used_count,
        free_count-length pool.current_capacity_objects pool.words pool.free_list_head v.free
            v.chain (omega arith),
      )
      (ap some (ground arith))
