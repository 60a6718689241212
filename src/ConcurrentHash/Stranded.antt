-- ===== src/ConcurrentHash/Stranded.antt =====
-- What a removal in src/data_structures/concurrent_hash.cpp does when it meets a free entry at once.
use native.Mathlib.Nat.{mod-eq_of_lt}
use packet_classifier.Prelude.{
  ◌%◌, ◌∙◌, ℕ, zero, suc, ◌<◌, ◌≡◌, refl, length, true, false, List, [], ◌∷◌, none, some, set,
  get_or-replicate, arith, inl, inr,
}
use packet_classifier.Prelude.Int.{ℤ}
use packet_classifier.Text.{Str, same_text, same_text_self}
use packet_classifier.ConcurrentHash.{
  TableEntry, ConcurrentHashTable, empty_entry, new, slot, insert_at, remove_at, positions,
  positions_from, lookup, insert, remove,
}
use packet_classifier.ConcurrentHash.Writes.{holds, slot-set, Wrote}
use packet_classifier.ConcurrentHash.Lookup.{IsValid, insert-cases, insert-IsValid, new-IsValid}
use packet_classifier.ConcurrentHash.History.{insert_all, remove-insert_all}

-- The first position of a key, in the three loops.
module _ (entries : List TableEntry) (key : Str) (i m : ℕ) (low : i < m) where
  remove_at-free :
      (n : ℕ)
      → (slot entries i).in_use ≡ false
      → remove_at entries key (positions_from m i 0 n) ≡ none
  unfolding remove_at positions_from
  remove_at-free zero free = refl
  remove_at-free (suc n) free = ground (arith, mod-eq_of_lt {n = i} {m = m} low)

  remove_at-first :
      (n : ℕ)
      → 0 < n
      → holds (slot entries i) key ≡ true
      → remove_at entries key (positions_from m i 0 n)
        ≡ some (set entries i (record (slot entries i) { in_use = false }))
  unfolding remove_at positions_from
  remove_at-first zero h held = absurd (omega arith)
  remove_at-first (suc n) h held = ground (arith, mod-eq_of_lt {n = i} {m = m} low)

  insert_at-first :
      (n : ℕ) (value : ℤ)
      → 0 < n
      → (slot entries i).in_use ≡ false
      → insert_at entries key value (positions_from m i 0 n)
        ≡ some (set entries i (record { key = key; value = value; in_use = true }), true)
  unfolding insert_at positions_from
  insert_at-first zero value h free = absurd (omega arith)
  insert_at-first (suc n) value h free = ground (arith, mod-eq_of_lt {n = i} {m = m} low)

-- An insertion leaves an entry in use with its key.
holds-kept :
    (entries : List TableEntry) (key : Str) (value : ℤ) (entries' : List TableEntry) (i : ℕ)
    (other : Str)
    → Wrote entries key value entries'
    → holds (slot entries i) other ≡ true
    → holds (slot entries' i) other ≡ true
holds-kept entries key value entries' i other w held = elim (w.was) [
  | inl free ↦ ground (arith, slot-set entries w.at i w.entry w.within, w.is_set)
  | inr own ↦ ground (arith, slot-set entries w.at i w.entry w.within, w.is_set, w.used, w.its_key)
]

module _ (std_hash : Str → ℕ) where
  -- The table is valid, and the entry at the position has the key.
  record Leads (capacity i : ℕ) (key : Str) (t : ConcurrentHashTable) : Type 0 where
    valid : IsValid t
    same_capacity : t.capacity ≡ capacity
    held : holds (slot t.table i) key ≡ true

  insert-Leads :
      (capacity i : ℕ) (key : Str) (t : ConcurrentHashTable) (other : Str) (value : ℤ)
      → Leads capacity i key t
      → Leads capacity i key (insert std_hash t other value)
  unfolding insert
  insert-Leads capacity i key t other value l = elim (insert-cases std_hash t other value l.valid) [
    | inl (full, same) ↦ rw same l
    | inr (entries, claimed, room, does, w) ↦ record {
      valid = insert-IsValid std_hash t other value l.valid;
      same_capacity = rw (insert, does) l.same_capacity;
      held = rw (insert, does) (holds-kept t.table other value entries i key w l.held);
    }
  ]

  insert_all-Leads :
      (capacity i : ℕ) (key : Str) (t : ConcurrentHashTable) (items : List (Str × ℤ))
      → Leads capacity i key t
      → Leads capacity i key (insert_all std_hash t items)
  unfolding insert_all
  insert_all-Leads capacity i key t [] l = l
  insert_all-Leads capacity i key t ((other, value) ∷ items) l =
      insert_all-Leads capacity i key (insert std_hash t other value) items
        (insert-Leads capacity i key t other value l)

  -- The first key in a new table goes to its first position.
  first-Leads :
      (n : ℕ) (key : Str) (value : ℤ)
      → Leads
          (new n).capacity
          (std_hash key % (new n).capacity)
          key
          (insert std_hash (new n) key value)
  unfolding insert positions
  first-Leads n key value =
      let t = new n in
      let v = new-IsValid n in
      let i : ℕ = std_hash key % t.capacity in
      let low : i < t.capacity = let p = v.positive in omega arith in
      let blank : (slot t.table i).in_use ≡ false =
        unfold new in rw (get_or-replicate _ i empty_entry) refl in
      let does = insert_at-first t.table key i t.capacity low t.capacity value v.positive blank in
      record {
        valid = insert-IsValid std_hash t key value v;
        same_capacity = rw (insert, does) refl;
        held =
            rw (insert, does)
              (ground (
                arith,
                slot-set t.table i i (record { key = key; value = value; in_use = true })
                    (rw v.width low),
                same_text_self key,
              ));
      }

  -- A removal of the key takes the entry at its first position out of use.
  remove-Leads :
      (capacity i : ℕ) (key : Str) (t : ConcurrentHashTable)
      → std_hash key % capacity ≡ i
      → Leads capacity i key t
      → ((remove std_hash t key).1 ≡ true)
        × ((remove std_hash t key).0.capacity ≡ capacity)
        × ((slot (remove std_hash t key).0.table i).in_use ≡ false)
  unfolding remove positions
  remove-Leads capacity i key t at_first l =
      let positive : 0 < capacity = rw (← l.same_capacity) l.valid.positive in
      let low : i < capacity = omega arith in
      let free : TableEntry = record (slot t.table i) { in_use = false } in
      let does : remove_at t.table key (positions std_hash t key) ≡ some (set t.table i free) =
        simp (l.same_capacity, at_first)
          (remove_at-first t.table key i capacity low capacity positive l.held) in
      let inside : i < length t.table =
        let width = l.valid.width in let e = l.same_capacity in omega arith in
      (
        rw (remove, does) refl,
        rw (remove, does) l.same_capacity,
        rw (remove, does) (ground (arith, slot-set t.table i i free inside)),
      )

  remove-free :
      (t : ConcurrentHashTable) (key : Str)
      → 0 < t.capacity
      → (slot t.table (std_hash key % t.capacity)).in_use ≡ false
      → remove std_hash t key ≡ (t, false)
  unfolding remove positions
  remove-free t key positive free =
      let i : ℕ = std_hash key % t.capacity in
      let none_done = remove_at-free t.table key i t.capacity (omega arith) t.capacity free in
      rw (remove, none_done) refl

  -- A new table is filled by insertions, the first of which is of a key that has the same first
  -- position as another one that a lookup finds. The removal of the first key succeeds; then a removal
  -- of the other one reports that it is not there, although a lookup finds it before and after.
  pub remove_stranded :
      (n : ℕ) (items : List (Str × ℤ)) (key : Str) (value : ℤ) (other : Str) (its : ℤ)
      → let t = insert_all std_hash (new n) ((key, value) ∷ items) in
        same_text key other ≡ false
        → std_hash key % (new n).capacity ≡ std_hash other % (new n).capacity
        → lookup std_hash t other ≡ some its
        → let t' = (remove std_hash t key).0 in
          ((remove std_hash t key).1 ≡ true)
          × (lookup std_hash t' other ≡ some its)
          × ((remove std_hash t' other).1 ≡ false)
          × (lookup std_hash (remove std_hash t' other).0 other ≡ some its)
  remove_stranded n items key value other its apart collide found =
      let t = insert_all std_hash (new n) ((key, value) ∷ items) in
      let c : ℕ = (new n).capacity in
      let leads : Leads c (std_hash key % c) key t =
        unfold insert_all in
        insert_all-Leads c (std_hash key % c) key (insert std_hash (new n) key value) items
          (first-Leads n key value) in
      let (done, same, free) = remove-Leads c (std_hash key % c) key t refl leads in
      let t' = (remove std_hash t key).0 in
      let still : lookup std_hash t' other ≡ some its =
        (remove-insert_all std_hash n ((key, value) ∷ items) key other).1 ∙ rw apart found in
      let stuck : remove std_hash t' other ≡ (t', false) =
        remove-free t' other (rw (same, ← leads.same_capacity) leads.valid.positive)
          (rw (same, ← collide) free) in
      (done, still, rw stuck refl, rw stuck still)
