-- ===== src/ConcurrentHash/Lookup.antt =====
-- Lookups after an insertion in src/data_structures/concurrent_hash.cpp.
use packet_classifier.Prelude.{
  ℕ, ◌<◌, ◌≡◌, ◌⊎◌, Bool, true, false, ◌&&◌, List, some, if◌then◌else◌, arith, length, length-set,
  length-replicate, Bool-cases, Option-cases, inl, inr,
}
use packet_classifier.Prelude.Int.{ℤ}
use packet_classifier.Text.{Str, same_text, same_text-eq}
use packet_classifier.ConcurrentHash.{
  TableEntry, ConcurrentHashTable, empty_entry, new, insert_at, positions, lookup, insert,
}
use packet_classifier.ConcurrentHash.Positions.{positions-lt}
use packet_classifier.ConcurrentHash.Writes.{
  room_at, Wrote, insert_at-Wrote, lookup_at-Wrote, lookup_at-insert_at, insert_at-full,
  insert_at-room,
}

pub record IsValid (t : ConcurrentHashTable) : Type 0 where
  pub positive : 0 < t.capacity
  pub width : length t.table ≡ t.capacity

module _ (std_hash : Str → ℕ) where
  -- The key, or a free entry, is among the probed positions.
  unfoldable pub has_room : ConcurrentHashTable → Str → Bool
  has_room t key = room_at t.table key (positions std_hash t key)

  pub insert-cases :
      (t : ConcurrentHashTable) (key : Str) (value : ℤ)
      → IsValid t
      → ((has_room t key ≡ false) × (insert std_hash t key value ≡ t))
        ⊎ ((entries : List TableEntry) × (claimed : Bool) × (has_room t key ≡ true)
            × (insert_at t.table key value (positions std_hash t key) ≡ some (entries, claimed))
            × Wrote t.table key value entries)
  unfolding has_room insert
  insert-cases t key value v = elim (Bool-cases (has_room t key)) [
    | inr full ↦
        inl (full, ground (arith, insert_at-full t.table key value (positions std_hash t key)))
    | inl room ↦ elim (Option-cases (insert_at t.table key value (positions std_hash t key))) [
      | inl full ↦ absurd (insert_at-room t.table key value (positions std_hash t key) room full)
      | inr ((entries, claimed), does) ↦ inr (
        entries,
        claimed,
        room,
        does,
        insert_at-Wrote t.table key value (positions std_hash t key) entries claimed
            (rw v.width (positions-lt std_hash t key v.positive)) does,
      )
    ]
  ]

  pub insert-IsValid :
      (t : ConcurrentHashTable) (key : Str) (value : ℤ)
      → IsValid t
      → IsValid (insert std_hash t key value)
  unfolding insert
  insert-IsValid t key value v = elim (insert-cases t key value v) [
    | inl (full, same) ↦ rw same v
    | inr (entries, claimed, room, does, w) ↦ ground (arith, length-set t.table w.at w.entry)
  ]

  -- In a valid table, an insertion with room for the key sets what a lookup of the key gives,
  -- whatever was removed before it; without room it does nothing. No other lookup changes.
  pub lookup-insert :
      (t : ConcurrentHashTable) (key : Str) (value : ℤ) (other : Str)
      → IsValid t
      → lookup std_hash (insert std_hash t key value) other
        ≡ (if has_room t key && same_text key other then some value else lookup std_hash t other)
  unfolding lookup insert positions
  lookup-insert t key value other v = elim (insert-cases t key value v) [
    | inl (full, same) ↦ ground arith
    | inr (entries, claimed, room, does, w) ↦ elim (Bool-cases (same_text key other)) [
      | inl same ↦
          let found =
            lookup_at-insert_at t.table key value (positions std_hash t key) entries claimed
              (rw v.width (positions-lt std_hash t key v.positive)) does in
          ground (arith, found, same_text-eq key other same)
      | inr apart ↦ ground (
        arith,
        lookup_at-Wrote t.table key value entries other (positions std_hash t other) w apart,
      )
    ]
  ]

-- A new table is valid.
pub new-IsValid : (n : ℕ) → IsValid (new n)
unfolding new
new-IsValid n = record { positive = ground arith; width = length-replicate _ empty_entry }
