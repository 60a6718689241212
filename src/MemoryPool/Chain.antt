-- ===== src/MemoryPool/Chain.antt =====
-- The free list in memory as a list of addresses.
use native.Mathlib.Nat.{suc-mul, mod-eq_of_lt}
use packet_classifier.Prelude.{
  ℕ, zero, suc, ◌+◌, ◌*◌, ◌%◌, ◌^◌, ◌≤◌, ◌<◌, ◌≡◌, ◌≢◌, refl, ◌∙◌, ◌⊎◌, inl, inr, false, List, [],
  ◌∷◌, some, ◌==◌, Bool-cases, arith, length,
}
use packet_classifier.Prelude.Bags.{count}
use packet_classifier.MemoryPool.{write, link, free_count}

-- The words link the addresses from the head, and the last one holds null.
abbrev pub IsChain : (ℕ → ℕ) → ℕ → List ℕ → Type 0
IsChain words head [] = head ≡ 0
IsChain words head (p ∷ ps) = (head ≡ p) × (p ≢ 0) × IsChain words (words p) ps

-- A write to an address that is not free does not matter.
pub write-IsChain :
    (words : ℕ → ℕ) (p v head : ℕ) (ps : List ℕ)
    → count p ps ≡ 0
    → IsChain words head ps
    → IsChain (write words p v) head ps
write-IsChain words p v head [] none_here c = c
write-IsChain words p v head (q ∷ ps) none_here c =
    let apart : (p == q) ≡ false = ground arith in
    (c.0, c.1, rw apart (write-IsChain words p v (words q) ps (ground arith) c.2))

-- The free list after `link`: the objects of a block, the last one first.
abbrev pub linked : ℕ → ℕ → ℕ → List ℕ → List ℕ
linked current size zero free = free
linked current size (suc left) free = linked (current + size) size left (current ∷ free)

pub length-linked :
    (current size left : ℕ) (free : List ℕ)
    → length (linked current size left free) ≡ length free + left
length-linked current size zero free = omega arith
length-linked current size (suc left) free =
    length-linked (current + size) size left (current ∷ free) ∙ omega arith

-- No address from `current` up to `end` is free.
abbrev pub Unused : ℕ → ℕ → List ℕ → Type 0
Unused current end free = (a : ℕ) → current ≤ a → a < end → count a free ≡ 0

Unused-cons :
    (current size end : ℕ) (free : List ℕ)
    → 0 < size
    → Unused current end free
    → Unused (current + size) end (current ∷ free)
Unused-cons current size end free h u a low high = ground (arith, u a)

pub written : (words : ℕ → ℕ) (p v : ℕ) → write words p v p ≡ v
written words p v = ground arith

-- One round of the loop: an unused object goes to the head of the list.
link_one-IsChain :
    (words : ℕ → ℕ) (head current : ℕ) (free : List ℕ)
    → 0 < current
    → count current free ≡ 0
    → IsChain words head free
    → IsChain (write words current head) current (current ∷ free)
link_one-IsChain words head current free h blank c = (
  refl,
  omega arith,
  rw (written words current head) (write-IsChain words current head head free blank c),
)

pub link-IsChain :
    (words : ℕ → ℕ) (head current size left end : ℕ) (free : List ℕ)
    → 0 < current
    → 0 < size
    → current + left * size ≤ end
    → end ≤ 2 ^ 64
    → Unused current end free
    → IsChain words head free
    → IsChain
        (link words head current size left).0
        (link words head current size left).1
        (linked current size left free)
unfolding link
link-IsChain words head current size zero end free h k fits space u c = c
link-IsChain words head current size (suc zero) end free h k fits space u c =
    link_one-IsChain words head current free h (u current (omega arith) (omega arith)) c
link-IsChain words head current size (suc (suc left)) end free h k fits space u c =
    let more : current + size + suc left * size ≤ end = ground (arith, suc-mul (suc left) size) in
    let next : (current + size) % 2 ^ 64 ≡ current + size =
      mod-eq_of_lt (ground (arith, suc-mul left size)) in
    let blank = u current (omega arith) (omega arith) in
    let chain = link_one-IsChain words head current free h blank c in
    rw (link, next)
      (link-IsChain (write words current head) current (current + size) size (suc left) end
        (current ∷ free) (omega arith) k more space (Unused-cons current size end free k u) chain)

-- The addresses outside the block are free as often as before.
pub count-linked :
    (current size left end a : ℕ) (free : List ℕ)
    → 0 < size
    → current + left * size ≤ end
    → (a < current) ⊎ (end ≤ a)
    → count a (linked current size left free) ≡ count a free
count-linked current size zero end a free h fits out = refl
count-linked current size (suc left) end a free h fits out =
    let more : current + size + left * size ≤ end = ground (arith, suc-mul left size) in
    count-linked (current + size) size left end a (current ∷ free) h more (omega arith)
    ∙ ground (arith, suc-mul left size)

-- No object of the block is free twice.
pub count-linked_once :
    (current size left end a : ℕ) (free : List ℕ)
    → 0 < size
    → current + left * size ≤ end
    → count a (linked current size left free) ≤ count a free + 1
count-linked_once current size zero end a free h fits = omega arith
count-linked_once current size (suc left) end a free h fits =
    let more : current + size + left * size ≤ end = ground (arith, suc-mul left size) in
    elim (Bool-cases (current == a)) [
      | inl here ↦
          let same =
            count-linked (current + size) size left end a (current ∷ free) h more
              (inl (ground arith)) in
          ground arith
      | inr apart ↦
          let rest = count-linked_once (current + size) size left end a (current ∷ free) h more in
          ground arith
    ]

-- A linked address is one that was free or the start of an object of the block.
pub linked_member :
    (current size left a : ℕ) (free : List ℕ)
    → 0 < count a (linked current size left free)
    → (0 < count a free) ⊎ ((i : ℕ) × (i < left) × (a ≡ current + i * size))
linked_member current size zero a free h = inl h
linked_member current size (suc left) a free h =
    elim (linked_member (current + size) size left a (current ∷ free) h) [
      | inr (i, low, at) ↦ inr (suc i, omega arith, ground (arith, suc-mul i size))
      | inl old ↦ elim (Bool-cases (current == a)) [
        | inl here ↦ inr (0, omega arith, ground arith)
        | inr other ↦ inl (ground arith)
      ]
    ]

pub free_count-length :
    (fuel : ℕ) (words : ℕ → ℕ) (head : ℕ) (ps : List ℕ)
    → IsChain words head ps
    → length ps ≤ fuel
    → free_count fuel words head ≡ some (length ps)
unfolding free_count
free_count-length zero words head [] c h = ground arith
free_count-length zero words head (p ∷ ps) c h = absurd (omega arith)
free_count-length (suc fuel) words head [] c h = ground arith
free_count-length (suc fuel) words head (p ∷ ps) c h =
    ground (arith, free_count-length fuel words (words p) ps c.2)
