-- ===== src/ConcurrentHash/Inserts/Items.antt =====
-- The threads of a list of insertions, and how one of them stands at its end, for
-- src/data_structures/concurrent_hash.cpp.
use packet_classifier.Prelude.{
  ℕ, zero, suc, ◌≤◌, ◌<◌, ◌≡◌, refl, ap, ◌⊎◌, inl, inr, true, false, List, [], ◌∷◌, none, some,
  length, All, get_or, arith, Bool-cases,
}
use packet_classifier.Prelude.Int.{ℤ, pos}
use packet_classifier.Text.{Str, is_empty}
use packet_classifier.ConcurrentHash.{
  TableEntry, ConcurrentHashTable, slot, positions_from, lookup_at,
}
use packet_classifier.ConcurrentHash.Writes.{holds}
use packet_classifier.ConcurrentHash.Remove.{Absent}
use packet_classifier.ConcurrentHash.Inserts.{
  Place, probing, occupied, claimed, keyed, stored, matched, done, full, World, nobody, thread,
  caller, begin,
}
use packet_classifier.ConcurrentHash.Inserts.Steps.{Has, Agrees, owns}
use packet_classifier.ConcurrentHash.Inserts.Ends.{IsEnded}

-- A lookup gives the value of one of the probed entries with the key, if there is one.
pub lookup_at-holds :
    (es : List TableEntry) (key : Str) (is : List ℕ)
    → ((lookup_at es key is ≡ none) × Absent es key is)
      ⊎ ((i : ℕ) × (holds (slot es i) key ≡ true) × (lookup_at es key is ≡ some (slot es i).value))
unfolding lookup_at
lookup_at-holds es key [] = inl (refl, tt)
lookup_at-holds es key (i ∷ is) = elim (Bool-cases (holds (slot es i) key)) [
  | inl here ↦ inr (i, here, ground arith)
  | inr other ↦ elim (lookup_at-holds es key is) [
    | inl (gone, absent) ↦ inl (ground arith, (other, absent))
    | inr (j, its, found) ↦ inr (j, its, ground arith)
  ]
]

abbrev no_item : Str × ℤ
no_item = ([], pos 0)

abbrev pub item : List (Str × ℤ) → ℕ → Str × ℤ
item items n = get_or items n no_item

pub length-positions_from : (m i d left : ℕ) → length (positions_from m i d left) ≡ left
unfolding positions_from
length-positions_from m i d zero = refl
length-positions_from m i d (suc left) = ap suc (length-positions_from m i (suc d) left)

pub IsEnded-owns : (p : Place) (i : ℕ) → IsEnded p → owns p i ≡ false
IsEnded-owns (done j) i e = refl
IsEnded-owns full i e = refl
IsEnded-owns (probing is) i e = absurd e
IsEnded-owns (occupied j is) i e = absurd e
IsEnded-owns (claimed j) i e = absurd e
IsEnded-owns (keyed j) i e = absurd e
IsEnded-owns (stored j) i e = absurd e
IsEnded-owns (matched j) i e = absurd e

-- A thread that has ended has its entry, or found the table full.
pub IsEnded-Has :
    (es : List TableEntry) (key : Str) (p : Place)
    → IsEnded p
    → Agrees es key p
    → ((i : ℕ) × Has es i key) ⊎ (p ≡ full)
IsEnded-Has es key (done j) e a = inl (j, a)
IsEnded-Has es key full e a = inr refl
IsEnded-Has es key (probing is) e a = absurd e
IsEnded-Has es key (occupied j is) e a = absurd e
IsEnded-Has es key (claimed j) e a = absurd e
IsEnded-Has es key (keyed j) e a = absurd e
IsEnded-Has es key (stored j) e a = absurd e
IsEnded-Has es key (matched j) e a = absurd e

module _ (std_hash : Str → ℕ) (t : ConcurrentHashTable) where
  -- The thread of an item at the start, or no thread.
  pub begin-thread :
      (items : List (Str × ℤ)) (n : ℕ)
      → ((n < length items)
          × (thread (begin std_hash t items).threads n ≡ caller std_hash t (item items n)))
        ⊎ ((length items ≤ n) × (thread (begin std_hash t items).threads n ≡ nobody))
  begin-thread [] n = inr (omega arith, refl)
  begin-thread ((k, v) ∷ items) zero = inl (omega arith, refl)
  begin-thread ((k, v) ∷ items) (suc n) = elim (begin-thread items n) [
    | inl (low, same) ↦ inl (omega arith, same)
    | inr (high, none_there) ↦ inr (omega arith, none_there)
  ]

pub All-item :
    (P : Str × ℤ → Type 0) (items : List (Str × ℤ)) (n : ℕ)
    → All P items
    → n < length items
    → P (item items n)
All-item P [] n a h = absurd (omega arith)
All-item P (x ∷ items) zero a h = a.0
All-item P (x ∷ items) (suc n) a h = All-item P items n a.1 (omega arith)

-- No key is the empty text, which is the key of a free entry.
abbrev pub AreNamed : List (Str × ℤ) → Type 0
AreNamed = All (λ x. is_empty x.0 ≡ false)

-- The table that the threads leave.
abbrev pub left_by : ConcurrentHashTable → World → ConcurrentHashTable
left_by t w = record t { table = w.entries; current_size = w.current_size }
