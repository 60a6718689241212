-- ===== src/ConcurrentHash/Rehash.antt =====
-- Lookups before and after `resize` of src/data_structures/concurrent_hash.cpp, in a table without
-- second copies of a key.
use mathlib.Core.Path.{subst}
use native.Mathlib.Decide.{dec_lt}
use packet_classifier.Prelude.{
  ℕ, zero, suc, ◌+◌, ◌%◌, ◌≤◌, ◌<◌, ◌≡◌, ◌⊎◌, refl, ◌∙◌, sym, true, false, List, [], ◌∷◌, Option,
  none, some, arith, length, All, All-map, Bool-cases, inl, inr,
}
use packet_classifier.Prelude.Int.{ℤ}
use packet_classifier.Text.{Str}
use packet_classifier.ConcurrentHash.{
  TableEntry, ConcurrentHashTable, new, slot, positions_from, positions, lookup_at, lookup, resize,
}
use packet_classifier.ConcurrentHash.Positions.{positions-lt}
use packet_classifier.ConcurrentHash.Writes.{holds}
use packet_classifier.ConcurrentHash.Remove.{Absent, Settled}
use packet_classifier.ConcurrentHash.History.{
  IsProbed, insert_all, insert_all-IsProbed, new-IsProbed,
}
use packet_classifier.ConcurrentHash.Resize.{used, last_value, distance, lookup-resize}

-- What holds at each probed position holds at each position of the table.
All-at :
    (P : ℕ → Type 0) (m i d left p : ℕ)
    → All P (positions_from m i d left)
    → d ≤ p
    → p < d + left
    → P ((i + p) % m)
unfolding positions_from
All-at P m i d zero p a h k = absurd (omega arith)
All-at P m i d (suc left) p a h k = elim (dec_lt d p) [
  | yes after ↦ All-at P m i (suc d) left p a.1 (omega arith) (omega arith)
  | no here ↦ let eq : d ≡ p = omega arith in subst (λ q. P ((i + q) % m)) eq a.0
]

pub All-every : (P : ℕ → Type 0) (m i j : ℕ) → All P (positions_from m i 0 m) → i < m → j < m → P j
All-every P m i j a h k =
    let (p, low, at) = distance m i j h k in
    subst P at (All-at P m i 0 m p a (omega arith) (omega arith))

-- One position alone holds the key.
abbrev OnlyAt : List TableEntry → Str → ℕ → ℕ → Type 0
OnlyAt entries key i j = (j ≡ i) ⊎ (holds (slot entries j) key ≡ false)

lookup_at-Settled :
    (entries : List TableEntry) (key : Str) (is : List ℕ)
    → All (λ j. j < length entries) is
    → Settled entries key is
    → ((lookup_at entries key is ≡ none) × Absent entries key is)
      ⊎ ((i : ℕ) × (i < length entries)
          × (holds (slot entries i) key ≡ true)
          × (lookup_at entries key is ≡ some (slot entries i).value)
          × All (OnlyAt entries key i) is)
unfolding lookup_at
lookup_at-Settled entries key [] low s = inl (refl, tt)
lookup_at-Settled entries key (j ∷ is) low s = elim (Bool-cases (holds (slot entries j) key)) [
  | inl here ↦
      inr (j, low.0, here, ground arith, (inl refl, All-map (λ k e. inr e) is (s.1 (inr here))))
  | inr other ↦ elim (lookup_at-Settled entries key is low.1 s.0) [
    | inl (gone, absent) ↦ inl (ground arith, (other, absent))
    | inr (i, within, its, found, only) ↦ inr (i, within, its, ground arith, (inr other, only))
  ]
]

last_value-absent :
    (es : List TableEntry) (key : Str) (otherwise : Option ℤ)
    → ((j : ℕ) → j < length es → holds (slot es j) key ≡ false)
    → last_value es key otherwise ≡ otherwise
last_value-absent [] key otherwise h = refl
last_value-absent (e ∷ es) key otherwise h =
    rw (h 0 (omega arith)) (last_value-absent es key otherwise (λ j k. h (suc j) (omega arith)))

last_value-only :
    (es : List TableEntry) (key : Str) (otherwise : Option ℤ) (i : ℕ)
    → i < length es
    → holds (slot es i) key ≡ true
    → ((j : ℕ) → j < length es → OnlyAt es key i j)
    → last_value es key otherwise ≡ some (slot es i).value
last_value-only [] key otherwise i k its h = absurd (omega arith)
last_value-only (e ∷ es) key otherwise zero k its h = rw its (
    last_value-absent es key (some e.value) (λ j low. elim (h (suc j) (omega arith)) [
      | inl same ↦ absurd (omega arith)
      | inr other ↦ other
    ]))
last_value-only (e ∷ es) key otherwise (suc i) k its h =
    last_value-only es key _ i (omega arith) its (λ j low. elim (h (suc j) (omega arith)) [
      | inl same ↦ inl (omega arith)
      | inr other ↦ inr other
    ])

module _ (std_hash : Str → ℕ) where
  lookup-last_value :
      (t : ConcurrentHashTable) (key : Str)
      → IsProbed std_hash t
      → lookup std_hash t key ≡ last_value t.table key none
  unfolding lookup positions
  lookup-last_value t key p =
      let first = std_hash key % t.capacity in
      let low : first < t.capacity = let k = p.valid.positive in ground arith in
      elim (lookup_at-Settled t.table key (positions std_hash t key)
        (rw p.valid.width (positions-lt std_hash t key p.valid.positive)) (p.settled key)) [
          | inl (gone, absent) ↦
              gone
              ∙ sym (
                  last_value-absent t.table key none (λ j k.
                    All-every (λ j. holds (slot t.table j) key ≡ false) t.capacity first j absent
                      low (rw (← p.valid.width) k)))
          | inr (i, within, its, found, only) ↦
              found
              ∙ sym (
                  last_value-only t.table key none i within its (λ j k.
                    All-every (OnlyAt t.table key i) t.capacity first j only low
                      (rw (← p.valid.width) k)))
        ]

  -- A table that only insertions have filled can be resized to any capacity but zero that the
  -- entries in use fit in, and every lookup stays as it is.
  pub resize-insert_all :
      (n : ℕ) (items : List (Str × ℤ)) (new_capacity : ℕ) (key : Str)
      → 0 < new_capacity
      → used (insert_all std_hash (new n) items).table ≤ new_capacity
      → (t' : ConcurrentHashTable) × (resize std_hash
            (insert_all std_hash (new n) items)
            new_capacity
          ≡ some t')
        × (lookup std_hash t' key ≡ lookup std_hash (insert_all std_hash (new n) items) key)
  resize-insert_all n items new_capacity key h k =
      let t = insert_all std_hash (new n) items in
      let (t', does, _, found) = lookup-resize std_hash t new_capacity key h k in
      let p = insert_all-IsProbed std_hash (new n) items (new-IsProbed std_hash n) in
      (t', does, found ∙ sym (lookup-last_value t key p))
