-- ===== src/ConcurrentHash/Writes.antt =====
-- What an insertion of src/data_structures/concurrent_hash.cpp writes, and what the loops of a lookup
-- find afterwards.
use packet_classifier.Prelude.{
  ℕ, ◌<◌, ◌≡◌, ◌≢◌, ◌⊎◌, refl, Bool, true, false, ◌&&◌, ◌||◌, not, List, [], ◌∷◌, none, some, ◌==◌,
  if◌then◌else◌, arith, length, length-set, All, set, get_or-set_self, get_or-set_ne, Bool-cases,
  inl, inr,
}
use packet_classifier.Prelude.Int.{ℤ}
use packet_classifier.Text.{Str, same_text, same_text_self, same_text-eq}
use packet_classifier.ConcurrentHash.{TableEntry, empty_entry, slot, lookup_at, insert_at}

abbrev pub holds : TableEntry → Str → Bool
holds e key = e.in_use && same_text e.key key

-- A position is free or has the key.
abbrev pub room_at : List TableEntry → Str → List ℕ → Bool
room_at entries key [] = false
room_at entries key (i ∷ is) =
    not (slot entries i).in_use || same_text (slot entries i).key key || room_at entries key is

pub slot-set :
    (entries : List TableEntry) (i j : ℕ) (e : TableEntry)
    → i < length entries
    → slot (set entries i e) j ≡ (if i == j then e else slot entries j)
slot-set entries i j e h = elim (Bool-cases (i == j)) [
  | inl same ↦
      let eq : i ≡ j = ground arith in rw (same, ← eq) (get_or-set_self entries i e empty_entry h)
  | inr other ↦ rw other (get_or-set_ne entries i j e empty_entry (ground arith))
]

-- What is read behind a write.
pub ruleset slot_laws = (arith, slot-set, length-set)

-- A write that neither takes the key away nor brings it does not matter to its lookup.
pub lookup_at-set :
    (entries : List TableEntry) (i : ℕ) (e : TableEntry) (key : Str) (is : List ℕ)
    → i < length entries
    → holds (slot entries i) key ≡ false
    → holds e key ≡ false
    → lookup_at (set entries i e) key is ≡ lookup_at entries key is
unfolding lookup_at
lookup_at-set entries i e key [] h old now = refl
lookup_at-set entries i e key (j ∷ is) h old now =
    ground (arith, slot-set entries i j e h, lookup_at-set entries i e key is h old now)

-- What an insertion did: it wrote at one position, which was free or had the key.
pub record Wrote (entries : List TableEntry) (key : Str) (value : ℤ) (entries' : List TableEntry)
    : Type 0 where
  pub at : ℕ
  pub entry : TableEntry
  pub within : at < length entries
  pub is_set : entries' ≡ set entries at entry
  pub used : entry.in_use ≡ true
  pub its_key : entry.key ≡ key
  pub its_value : entry.value ≡ value
  pub was : ((slot entries at).in_use ≡ false) ⊎ ((slot entries at).key ≡ key)

pub insert_at-Wrote :
    (entries : List TableEntry) (key : Str) (value : ℤ) (is : List ℕ) (entries' : List TableEntry)
    (claimed : Bool)
    → All (λ i. i < length entries) is
    → insert_at entries key value is ≡ some (entries', claimed)
    → Wrote entries key value entries'
unfolding insert_at
insert_at-Wrote entries key value [] entries' claimed h e = absurd cc
insert_at-Wrote entries key value (i ∷ is) entries' claimed h e =
    elim (Bool-cases (slot entries i).in_use) [
      | inr unused ↦ record {
        at = i;
        entry = record { key = key; value = value; in_use = true };
        within = h.0;
        is_set = ground arith;
        used = refl;
        its_key = refl;
        its_value = refl;
        was = inl unused;
      }
      | inl used ↦ elim (Bool-cases (same_text (slot entries i).key key)) [
        | inl same ↦
            let eq = same_text-eq (slot entries i).key key same in
            record {
              at = i;
              entry = record (slot entries i) { value = value };
              within = h.0;
              is_set = ground arith;
              used = used;
              its_key = eq;
              its_value = refl;
              was = inr eq;
            }
        | inr other ↦ insert_at-Wrote entries key value is entries' claimed h.1 (ground arith)
      ]
    ]

-- The written entry does not hold another key, before and after.
pub Wrote-other :
    (entries : List TableEntry) (key : Str) (value : ℤ) (entries' : List TableEntry) (other : Str)
    (w : Wrote entries key value entries')
    → same_text key other ≡ false
    → (holds (slot entries w.at) other ≡ false) × (holds w.entry other ≡ false)
Wrote-other entries key value entries' other w apart = elim (w.was) [
  | inl unused ↦ (rw unused refl, rw (w.used, w.its_key) apart)
  | inr own ↦ (rw own (ground arith), rw (w.used, w.its_key) apart)
]

pub lookup_at-Wrote :
    (entries : List TableEntry) (key : Str) (value : ℤ) (entries' : List TableEntry) (other : Str)
    (is : List ℕ)
    → Wrote entries key value entries'
    → same_text key other ≡ false
    → lookup_at entries' other is ≡ lookup_at entries other is
lookup_at-Wrote entries key value entries' other is w apart =
    let (old, now) = Wrote-other entries key value entries' other w apart in
    rw w.is_set (lookup_at-set entries w.at w.entry other is w.within old now)

-- An entry in use by another key stays as it is.
pub slot-Wrote :
    (entries : List TableEntry) (key : Str) (value : ℤ) (entries' : List TableEntry) (i : ℕ)
    → Wrote entries key value entries'
    → (slot entries i).in_use ≡ true
    → same_text (slot entries i).key key ≡ false
    → slot entries' i ≡ slot entries i
slot-Wrote entries key value entries' i w used other =
    ground (arith, slot-set entries w.at i w.entry w.within, same_text_self key)

pub lookup_at-insert_at :
    (entries : List TableEntry) (key : Str) (value : ℤ) (is : List ℕ) (entries' : List TableEntry)
    (claimed : Bool)
    → All (λ i. i < length entries) is
    → insert_at entries key value is ≡ some (entries', claimed)
    → lookup_at entries' key is ≡ some value
unfolding insert_at lookup_at
lookup_at-insert_at entries key value [] entries' claimed h e = absurd cc
lookup_at-insert_at entries key value (i ∷ is) entries' claimed h e =
    elim (Bool-cases (slot entries i).in_use) [
      | inr unused ↦ ground (
        arith,
        slot-set entries i i (record { key = key; value = value; in_use = true }) h.0,
        same_text_self key,
      )
      | inl used ↦ elim (Bool-cases (same_text (slot entries i).key key)) [
        | inl same ↦
            ground (arith, slot-set entries i i (record (slot entries i) { value = value }) h.0)
        | inr other ↦
            let e' : insert_at entries key value is ≡ some (entries', claimed) = ground arith in
            let w = insert_at-Wrote entries key value is entries' claimed h.1 e' in
            let same = slot-Wrote entries key value entries' i w used other in
            ground (arith, lookup_at-insert_at entries key value is entries' claimed h.1 e')
      ]
    ]

pub insert_at-full :
    (entries : List TableEntry) (key : Str) (value : ℤ) (is : List ℕ)
    → (room_at entries key is ≡ false)
    → insert_at entries key value is ≡ none
unfolding insert_at
insert_at-full entries key value [] e = refl
insert_at-full entries key value (i ∷ is) e = ground (arith, insert_at-full entries key value is)

pub insert_at-room :
    (entries : List TableEntry) (key : Str) (value : ℤ) (is : List ℕ)
    → (room_at entries key is ≡ true)
    → insert_at entries key value is ≢ none
unfolding insert_at
insert_at-room entries key value [] e full = cc
insert_at-room entries key value (i ∷ is) e full =
    ground (arith, insert_at-room entries key value is)
