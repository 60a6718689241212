-- ===== src/ConcurrentHash/Resize.antt =====
-- `resize` of src/data_structures/concurrent_hash.cpp: the entries in use are inserted into an empty
-- table of the new capacity.
use native.Mathlib.Decide.{dec_lt}
use packet_classifier.Prelude.{
  ℕ, zero, suc, ◌+◌, ◌-◌, ◌%◌, ◌≤◌, ◌<◌, ◌≡◌, refl, ap, ◌∙◌, true, false, ◌&&◌, List, [], ◌∷◌,
  Option, none, some, if◌then◌else◌, arith, length, set, replicate, get_or-replicate,
  length-replicate, Bool-cases, inl, inr,
}
use packet_classifier.Prelude.Int.{ℤ}
use packet_classifier.Text.{Str, same_text}
use packet_classifier.ConcurrentHash.{
  TableEntry, ConcurrentHashTable, empty_entry, slot, positions_from, positions, lookup_at, lookup,
  insert, reinsert, resize,
}
use packet_classifier.ConcurrentHash.Positions.{sum-mod}
use packet_classifier.ConcurrentHash.Writes.{room_at}
use packet_classifier.ConcurrentHash.Lookup.{
  IsValid, has_room, insert-cases, insert-IsValid, lookup-insert,
}

abbrev pub used : List TableEntry → ℕ
used [] = 0
used (e ∷ es) = let rest = used es in if e.in_use then suc rest else rest

-- The value of the last entry in use by a key, `otherwise` where there is none.
abbrev pub last_value : List TableEntry → Str → Option ℤ → Option ℤ
last_value [] key otherwise = otherwise
last_value (e ∷ es) key otherwise =
    last_value es key (if e.in_use && same_text e.key key then some e.value else otherwise)

used-set : (es : List TableEntry) (i : ℕ) (e : TableEntry) → used (set es i e) ≤ suc (used es)
used-set [] i e = omega arith
used-set (x ∷ es) zero e = ground arith
used-set (x ∷ es) (suc i) e = ground (arith, used-set es i e)

used-replicate : (n : ℕ) → used (replicate n empty_entry) ≡ 0
used-replicate zero = refl
used-replicate (suc n) = used-replicate n

free_slot :
    (es : List TableEntry)
    → used es < length es
    → (i : ℕ) × (i < length es) × ((slot es i).in_use ≡ false)
free_slot [] h = absurd (omega arith)
free_slot (e ∷ es) h = elim (Bool-cases e.in_use) [
  | inr unused ↦ (0, omega arith, unused)
  | inl in_use ↦ let (i, within, free) = free_slot es (ground arith) in (suc i, omega arith, free)
]

-- The probes reach every position of the table.
pub distance : (m i j : ℕ) → i < m → j < m → (p : ℕ) × (p < m) × ((i + p) % m ≡ j)
distance m i j h k = elim (dec_lt j i) [
  | yes wraps ↦
      let a = sum-mod i (j + m - i) m h (omega arith) in (j + m - i, omega arith, ground arith)
  | no ahead ↦ let a = sum-mod i (j - i) m h (omega arith) in (j - i, omega arith, ground arith)
]

room_at-positions_from :
    (es : List TableEntry) (key : Str) (m i p d left : ℕ)
    → (slot es ((i + p) % m)).in_use ≡ false
    → d ≤ p
    → p < d + left
    → room_at es key (positions_from m i d left) ≡ true
unfolding positions_from
room_at-positions_from es key m i p d zero free h k = absurd (omega arith)
room_at-positions_from es key m i p d (suc left) free h k = elim (dec_lt d p) [
  | yes before ↦
      ground
        (arith, room_at-positions_from es key m i p (suc d) left free (omega arith) (omega arith))
  | no here ↦ let eq : d ≡ p = omega arith in rw (eq, free) refl
]

lookup_at-blank :
    (n : ℕ) (key : Str) (is : List ℕ) → lookup_at (replicate n empty_entry) key is ≡ none
unfolding lookup_at
lookup_at-blank n key [] = refl
lookup_at-blank n key (i ∷ is) = rw (get_or-replicate n i empty_entry) (lookup_at-blank n key is)

module _ (std_hash : Str → ℕ) where
  used-has_room :
      (t : ConcurrentHashTable) (key : Str)
      → IsValid t
      → used t.table < t.capacity
      → has_room std_hash t key ≡ true
  unfolding has_room positions
  used-has_room t key v h =
      let (j, within, free) = free_slot t.table (rw v.width h) in
      let first = std_hash key % t.capacity in
      let (p, low, at) =
        distance t.capacity first j (let k = v.positive in ground arith) (rw (← v.width) within) in
      room_at-positions_from t.table key t.capacity first p 0 t.capacity (rw at free) (omega arith)
        (omega arith)

  used-insert :
      (t : ConcurrentHashTable) (key : Str) (value : ℤ)
      → IsValid t
      → used (insert std_hash t key value).table ≤ suc (used t.table)
  unfolding insert
  used-insert t key value v = elim (insert-cases std_hash t key value v) [
    | inl (full, same) ↦ ground arith
    | inr (entries, claimed, room, does, w) ↦ ground (arith, used-set t.table w.at w.entry)
  ]

  capacity-insert :
      (t : ConcurrentHashTable) (key : Str) (value : ℤ)
      → (insert std_hash t key value).capacity ≡ t.capacity
  unfolding insert
  capacity-insert t key value = ground arith

  lookup-reinsert :
      (t : ConcurrentHashTable) (es : List TableEntry) (key : Str)
      → IsValid t
      → used t.table + used es ≤ t.capacity
      → lookup std_hash (reinsert std_hash t es) key ≡ last_value es key (lookup std_hash t key)
  unfolding reinsert
  lookup-reinsert t [] key v h = refl
  lookup-reinsert t (e ∷ es) key v h = elim (Bool-cases e.in_use) [
    | inr unused ↦ rw unused (lookup-reinsert t es key v (ground arith))
    | inl in_use ↦
        let t' = insert std_hash t e.key e.value in
        let more = used-insert t e.key e.value v in
        let same = capacity-insert t e.key e.value in
        let room = used-has_room t e.key v (ground arith) in
        let fits : used t'.table + used es ≤ t'.capacity = ground arith in
        let rest = lookup-reinsert t' es key (insert-IsValid std_hash t e.key e.value v) fits in
        let one = lookup-insert std_hash t e.key e.value key v in ground arith
  ]

  capacity-reinsert :
      (t : ConcurrentHashTable) (es : List TableEntry)
      → (reinsert std_hash t es).capacity ≡ t.capacity
  unfolding reinsert
  capacity-reinsert t [] = refl
  capacity-reinsert t (e ∷ es) = ground (
    arith,
    capacity-reinsert t es,
    capacity-reinsert (insert std_hash t e.key e.value) es,
    capacity-insert t e.key e.value,
  )

  -- Where the new capacity is not zero and there are no more entries in use, a table can be resized,
  -- and a lookup then gives the value of the last entry in use by the key.
  pub lookup-resize :
      (t : ConcurrentHashTable) (new_capacity : ℕ) (key : Str)
      → 0 < new_capacity
      → used t.table ≤ new_capacity
      → (t' : ConcurrentHashTable) × (resize std_hash t new_capacity ≡ some t')
        × (t'.capacity ≡ new_capacity)
        × (lookup std_hash t' key ≡ last_value t.table key none)
  unfolding resize lookup
  lookup-resize t new_capacity key h k =
      let blank : ConcurrentHashTable = record {
        table = replicate new_capacity empty_entry;
        current_size = 0;
        capacity = new_capacity;
      } in
      let v : IsValid blank = record {
        positive = h;
        width = length-replicate new_capacity empty_entry;
      } in
      let fits : used blank.table + used t.table ≤ blank.capacity =
        let empty = used-replicate new_capacity in omega arith in
      let found = lookup-reinsert blank t.table key v fits in
      let nothing = lookup_at-blank new_capacity key (positions std_hash blank key) in
      (
        reinsert std_hash blank t.table,
        ground arith,
        capacity-reinsert blank t.table,
        found ∙ ap (last_value t.table key) nothing,
      )
