-- ===== src/ConcurrentHash/Lookups/Sights.antt =====
-- What a lookup in src/data_structures/concurrent_hash.cpp sees of the entries that threads write.
use packet_classifier.Prelude.{
  ℕ, length, ◌<◌, ◌≡◌, ◌≢◌, refl, ◌⊎◌, inl, inr, true, false, List, [], ◌∷◌, ◌==◌, set, arith,
  Bool-cases,
}
use packet_classifier.Prelude.Int.{ℤ, negsuc}
use packet_classifier.Text.{Str, is_empty}
use packet_classifier.ConcurrentHash.{TableEntry, slot}
use packet_classifier.ConcurrentHash.Writes.{slot_laws}
use packet_classifier.ConcurrentHash.Inserts.{
  Place, probing, occupied, claimed, keyed, stored, matched, done, full, move,
}
use packet_classifier.ConcurrentHash.Inserts.Steps.{Agrees}

-- The entry is in use and has the key.
abbrev pub Shows : List TableEntry → ℕ → Str → Type 0
Shows es j k = ((slot es j).in_use ≡ true) × ((slot es j).key ≡ k)

Shows-set :
    (es : List TableEntry) (i j : ℕ) (e : TableEntry) (k : Str)
    → i < length es
    → Shows es j k
    → (i ≡ j → (e.in_use ≡ true) × (e.key ≡ k))
    → Shows (set es i e) j k
Shows-set es i j e k within shows h = elim (Bool-cases (i == j)) [
  | inl here ↦ let (its_use, its_key) = h (ground arith) in grind slot_laws
  | inr other ↦ grind slot_laws
]

-- No step takes a key away that is not empty.
pub Shows-move :
    (es : List TableEntry) (key : Str) (value : ℤ) (p : Place) (j : ℕ) (k : Str)
    → Agrees es key p
    → is_empty k ≡ false
    → Shows es j k
    → Shows (move es key value p).entries j k
unfolding move
Shows-move es key value (probing []) j k a some_key s = s
Shows-move es key value (probing (i ∷ is)) j k a some_key s = elim (Bool-cases (slot es i).in_use) [
  | inl on ↦ rw (on, move) s
  | inr off ↦
      rw (off, move)
        (Shows-set es i j (record (slot es i) { in_use = true }) k a.0 s
          (λ same. (refl, rw same s.1)))
]
Shows-move es key value (occupied i is) j k a some_key s = s
Shows-move es key value (claimed i) j k a some_key s =
    Shows-set es i j (record (slot es i) { key = key }) k a.0 s
      (λ same. absurd (let blank = a.2 in let its = s.1 in ground arith))
Shows-move es key value (keyed i) j k a some_key s =
    Shows-set es i j (record (slot es i) { value = value }) k a.0 s (λ same. rw same s)
Shows-move es key value (stored i) j k a some_key s = s
Shows-move es key value (matched i) j k a some_key s =
    Shows-set es i j (record (slot es i) { value = value }) k a.0 s (λ same. rw same s)
Shows-move es key value (done i) j k a some_key s = s
Shows-move es key value full j k a some_key s = s

-- The value that a new entry has, or one that is given with the key.
abbrev pub IsFilled : (Str → ℤ → Type 0) → List TableEntry → Type 0
IsFilled P es =
    (i : ℕ)
    → ((slot es i).value ≡ negsuc 0)
      ⊎ (P (slot es i).key (slot es i).value × (is_empty (slot es i).key ≡ false))

IsFilled-set :
    (P : Str → ℤ → Type 0) (es : List TableEntry) (i : ℕ) (e : TableEntry)
    → i < length es
    → IsFilled P es
    → (e.value ≡ negsuc 0) ⊎ (P e.key e.value × (is_empty e.key ≡ false))
    → IsFilled P (set es i e)
IsFilled-set P es i e within f h j = elim (Bool-cases (i == j)) [
  | inl here ↦ let same : slot (set es i e) j ≡ e = grind slot_laws in rw same h
  | inr other ↦ let same : slot (set es i e) j ≡ slot es j = grind slot_laws in rw same (f j)
]

pub IsFilled-move :
    (P : Str → ℤ → Type 0) (es : List TableEntry) (key : Str) (value : ℤ) (p : Place)
    → Agrees es key p
    → (p ≢ full → P key value × (is_empty key ≡ false))
    → IsFilled P es
    → IsFilled P (move es key value p).entries
unfolding move
IsFilled-move P es key value (probing []) a h f = f
IsFilled-move P es key value (probing (i ∷ is)) a h f = elim (Bool-cases (slot es i).in_use) [
  | inl on ↦ rw (on, move) f
  | inr off ↦
      rw (off, move) (IsFilled-set P es i (record (slot es i) { in_use = true }) a.0 f (f i))
]
IsFilled-move P es key value (occupied i is) a h f = f
IsFilled-move P es key value (claimed i) a h f =
    IsFilled-set P es i (record (slot es i) { key = key }) a.0 f
      (elim (f i) [
        | inl fresh ↦ inl fresh
        | inr (given, some_key) ↦ absurd (let blank = a.2 in ground arith)
      ])
IsFilled-move P es key value (keyed i) a h f =
    IsFilled-set P es i (record (slot es i) { value = value }) a.0 f (inr (rw a.2 (h (λ e. cc))))
IsFilled-move P es key value (stored i) a h f = f
IsFilled-move P es key value (matched i) a h f =
    IsFilled-set P es i (record (slot es i) { value = value }) a.0 f (inr (rw a.2 (h (λ e. cc))))
IsFilled-move P es key value (done i) a h f = f
IsFilled-move P es key value full a h f = f
