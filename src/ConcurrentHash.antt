-- ===== src/ConcurrentHash.antt =====
-- src/data_structures/concurrent_hash.cpp and its header: open addressing with linear probing, each
-- method as one step. std::hash on strings is the parameter `std_hash`.
pub mod Positions
pub mod Writes
pub mod Lookup
pub mod Remove
pub mod History
pub mod Resize
pub mod Rehash
pub mod Stranded
pub mod Inserts
pub mod Lookups
pub mod Placeholders
use packet_classifier.Prelude.{
  ℕ, zero, suc, ◌+◌, ◌-◌, ◌%◌, ◌^◌, Bool, true, false, ◌&&◌, not, List, [], ◌∷◌, Option, none, some,
  ◌==◌, if◌then◌else◌, get_or, set, replicate,
}
use packet_classifier.Prelude.Int.{ℤ, negsuc}
use packet_classifier.Text.{Str, same_text}

pub record TableEntry : Type 0 where
  pub key : Str
  pub value : ℤ
  pub in_use : Bool

abbrev pub empty_entry : TableEntry
empty_entry = record { key = []; value = negsuc 0; in_use = false }

pub record ConcurrentHashTable : Type 0 where
  pub table : List TableEntry
  pub current_size : ℕ
  pub capacity : ℕ

unfoldable pub new : ℕ → ConcurrentHashTable
new initial_size =
    let capacity = if initial_size == 0 then 1024 else initial_size in
    record { table = replicate capacity empty_entry; current_size = 0; capacity = capacity }

abbrev pub slot : List TableEntry → ℕ → TableEntry
slot entries i = get_or entries i empty_entry

-- The values of `current_index` in the loops of the methods: `left` probes remain.
unfoldable pub positions_from : ℕ → ℕ → ℕ → ℕ → List ℕ
positions_from capacity initial_index probe_distance zero = []
positions_from capacity initial_index probe_distance (suc left) =
    (initial_index + probe_distance) % capacity
    ∷ positions_from capacity initial_index (suc probe_distance) left

-- The loops, each at the positions that remain. A free entry is passed over by a lookup.
unfoldable pub lookup_at : List TableEntry → Str → List ℕ → Option ℤ
lookup_at entries key [] = none
lookup_at entries key (i ∷ is) =
    let e = slot entries i in
    let rest = lookup_at entries key is in
    if e.in_use then (if same_text e.key key then some e.value else rest) else rest

-- What an insertion writes: the entries, and whether a free entry was taken. `none` is a full table.
unfoldable pub insert_at : List TableEntry → Str → ℤ → List ℕ → Option (List TableEntry × Bool)
insert_at entries key value [] = none
insert_at entries key value (i ∷ is) =
    let e = slot entries i in
    let rest = insert_at entries key value is in
    if not e.in_use
    then some (set entries i (record { key = key; value = value; in_use = true }), true)
    else if same_text e.key key
    then some (set entries i (record e { value = value }), false)
    else rest

-- A free entry ends the search for the key to remove.
unfoldable pub remove_at : List TableEntry → Str → List ℕ → Option (List TableEntry)
remove_at entries key [] = none
remove_at entries key (i ∷ is) =
    let e = slot entries i in
    let rest = remove_at entries key is in
    if e.in_use
    then (if same_text e.key key then some (set entries i (record e { in_use = false })) else rest)
    else none

module _ (std_hash : Str → ℕ) where
  unfoldable pub positions : ConcurrentHashTable → Str → List ℕ
  positions t key = positions_from t.capacity (std_hash key % t.capacity) 0 t.capacity

  unfoldable pub lookup : ConcurrentHashTable → Str → Option ℤ
  lookup t key = lookup_at t.table key (positions t key)

  -- A full table is left as it is.
  unfoldable pub insert : ConcurrentHashTable → Str → ℤ → ConcurrentHashTable
  insert t key value = elim (insert_at t.table key value (positions t key)) [
    | none ↦ t
    | some (entries, claimed) ↦ record t {
      table = entries;
      current_size = if claimed then (t.current_size + 1) % 2 ^ 64 else t.current_size;
    }
  ]

  unfoldable pub remove : ConcurrentHashTable → Str → ConcurrentHashTable × Bool
  remove t key = elim (remove_at t.table key (positions t key)) [
    | none ↦ (t, false)
    | some entries ↦
        (record t { table = entries; current_size = (t.current_size + 2 ^ 64 - 1) % 2 ^ 64 }, true)
  ]

  unfoldable pub perform_rcu_update : ConcurrentHashTable → Str → ℤ → Bool → ConcurrentHashTable
  perform_rcu_update t key value is_insert =
      if is_insert then insert t key value else (remove t key).0

  -- The entries of the old table that are in use are inserted again, in their order.
  unfoldable pub reinsert : ConcurrentHashTable → List TableEntry → ConcurrentHashTable
  reinsert t [] = t
  reinsert t (e ∷ entries) =
      if e.in_use then reinsert (insert t e.key e.value) entries else reinsert t entries

  -- At capacity 0 the next method divides by zero: `none`.
  unfoldable pub resize : ConcurrentHashTable → ℕ → Option ConcurrentHashTable
  resize t new_capacity =
      if new_capacity == 0
      then none
      else some (
          reinsert
            (record {
              table = replicate new_capacity empty_entry;
              current_size = 0;
              capacity = new_capacity;
            })
            t.table)
