-- ===== src/ConcurrentHash/Remove.antt =====
-- `remove` of src/data_structures/concurrent_hash.cpp, where no free entry and no second copy
-- lies on the way to a key.
use packet_classifier.Prelude.{
  ℕ, ◌<◌, ◌≡◌, ◌⊎◌, refl, Bool, true, false, List, [], ◌∷◌, Option, none, some, arith, length, All,
  All-map, set, length-set, Bool-cases, inl, inr,
}
use packet_classifier.Prelude.Int.{ℤ}
use packet_classifier.Text.{Str, same_text, same_text-eq}
use packet_classifier.ConcurrentHash.{TableEntry, slot, lookup_at, remove_at}
use packet_classifier.ConcurrentHash.Writes.{holds, slot-set, lookup_at-set}

-- None of the positions holds the key.
abbrev pub Absent : List TableEntry → Str → List ℕ → Type 0
Absent entries key = All (λ i. holds (slot entries i) key ≡ false)

-- After a free position, and after one that holds the key, no position holds the key.
abbrev pub Settled : List TableEntry → Str → List ℕ → Type 0
Settled entries key [] = Unit {0}
Settled entries key (i ∷ is) =
    Settled entries key is
    × (((slot entries i).in_use ≡ false) ⊎ (holds (slot entries i) key ≡ true)
        → Absent entries key is)

abbrev pub is_some : Option ℤ → Bool
is_some none = false
is_some (some v) = true

lookup_at-Absent :
    (entries : List TableEntry) (key : Str) (is : List ℕ)
    → Absent entries key is
    → lookup_at entries key is ≡ none
unfolding lookup_at
lookup_at-Absent entries key [] h = refl
lookup_at-Absent entries key (i ∷ is) h = ground (arith, lookup_at-Absent entries key is h.1)

-- Freeing a position brings no key back.
holds-freed :
    (entries : List TableEntry) (i j : ℕ) (key : Str)
    → i < length entries
    → holds (slot entries j) key ≡ false
    → holds (slot (set entries i (record (slot entries i) { in_use = false })) j) key ≡ false
holds-freed entries i j key h e =
    ground (arith, slot-set entries i j (record (slot entries i) { in_use = false }) h)

-- What a removal did: the key is gone and the other keys are where they were.
pub record Removed (entries : List TableEntry) (key : Str) (is : List ℕ)
    (entries' : List TableEntry) : Type 0 where
  pub width : length entries' ≡ length entries
  pub there : is_some (lookup_at entries key is) ≡ true
  pub gone : lookup_at entries' key is ≡ none
  pub freed : (j : ℕ) → holds (slot entries j) key ≡ false → holds (slot entries' j) key ≡ false
  pub others :
      (other : Str) (js : List ℕ)
      → same_text key other ≡ false
      → lookup_at entries' other js ≡ lookup_at entries other js

Removed-here :
    (entries : List TableEntry) (key : Str) (i : ℕ) (is : List ℕ)
    → i < length entries
    → (slot entries i).in_use ≡ true
    → same_text (slot entries i).key key ≡ true
    → Absent entries key is
    → Removed entries key (i ∷ is) (set entries i (record (slot entries i) { in_use = false }))
unfolding lookup_at
Removed-here entries key i is h used same absent =
    let free : TableEntry = record (slot entries i) { in_use = false } in
    record {
      width = length-set entries i free;
      there = ground arith;
      gone = ground (
        arith,
        slot-set entries i i free h,
        lookup_at-Absent (set entries i free) key is
            (All-map (λ j e. holds-freed entries i j key h e) is absent),
      );
      freed = λ j e. holds-freed entries i j key h e;
      others = λ other js apart.
          lookup_at-set entries i free other js h
            (rw (used, same_text-eq (slot entries i).key key same) apart) refl;
    }

pub remove_at-Removed :
    (entries : List TableEntry) (key : Str) (is : List ℕ)
    → All (λ i. i < length entries) is
    → Settled entries key is
    → ((lookup_at entries key is ≡ none) × (remove_at entries key is ≡ none))
      ⊎ ((entries' : List TableEntry) × (remove_at entries key is ≡ some entries')
          × Removed entries key is entries')
unfolding lookup_at remove_at
remove_at-Removed entries key [] h s = inl (refl, refl)
remove_at-Removed entries key (i ∷ is) h s = elim (Bool-cases (slot entries i).in_use) [
  | inr unused ↦
      inl (ground (arith, lookup_at-Absent entries key is (s.1 (inl unused))), ground arith)
  | inl used ↦ elim (Bool-cases (same_text (slot entries i).key key)) [
    | inl same ↦ inr (
      set entries i (record (slot entries i) { in_use = false }),
      ground arith,
      Removed-here entries key i is h.0 used same (s.1 (inr (rw (used, same)))),
    )
    | inr other ↦ elim (remove_at-Removed entries key is h.1 s.0) [
      | inl (none_there, not_done) ↦ inl (ground arith, ground arith)
      | inr (entries', does, r) ↦ inr (
        entries',
        ground arith,
        record {
          width = r.width;
          there = ground (arith, r.there);
          gone = ground (arith, r.gone, r.freed i (rw (used, other) refl));
          freed = r.freed;
          others = r.others;
        },
      )
    ]
  ]
]
