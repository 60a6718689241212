-- ===== src/ConcurrentHash/Inserts/Steps.antt =====
-- What a move of one thread means for the others.
use packet_classifier.Prelude.{
  ℕ, zero, suc, ◌<◌, ◌≡◌, ◌≢◌, refl, ◌⊎◌, inl, inr, Bool, true, false, List, [], ◌∷◌, ◌==◌,
  if◌then◌else◌, set, length, length-set, All, arith, Bool-cases,
}
use packet_classifier.Text.{Str}
use packet_classifier.ConcurrentHash.{TableEntry, slot}
use packet_classifier.ConcurrentHash.Writes.{slot_laws}
use packet_classifier.ConcurrentHash.Inserts.{
  Place, probing, occupied, claimed, keyed, stored, matched, done, full, Thread, World, nobody,
  thread,
}

-- The entry at a position is in use and has the key.
abbrev pub Has : List TableEntry → ℕ → Str → Type 0
Has es i key = (i < length es) × ((slot es i).in_use ≡ true) × ((slot es i).key ≡ key)

-- How the entries stand to a thread.
abbrev pub Agrees : List TableEntry → Str → Place → Type 0
Agrees es key (probing is) = All (λ i. i < length es) is
Agrees es key (occupied i is) = (i < length es) × All (λ j. j < length es) is
Agrees es key (claimed i) = Has es i []
Agrees es key (keyed i) = Has es i key
Agrees es key (stored i) = Has es i key
Agrees es key (matched i) = Has es i key
Agrees es key (done i) = Has es i key
Agrees es key full = Unit {0}

-- The thread has claimed the entry and has not written it yet.
abbrev pub owns : Place → ℕ → Bool
owns (claimed j) i = j == i
owns (keyed j) i = j == i
owns p i = false

pub thread-set :
    (ts : List Thread) (n m : ℕ) (t : Thread)
    → (n < length ts) ⊎ (t ≡ nobody)
    → thread (set ts n t) m ≡ (if n == m then t else thread ts m)
thread-set [] n m t (inl h) = absurd (omega arith)
thread-set [] n m t (inr e) = ground arith
thread-set (x ∷ ts) zero zero t h = refl
thread-set (x ∷ ts) zero (suc m) t h = ground arith
thread-set (x ∷ ts) (suc n) zero t h = ground arith
thread-set (x ∷ ts) (suc n) (suc m) t h = ground (arith, thread-set ts n m t)

abbrev pub moved : World → ℕ → List TableEntry → Place → ℕ → World
moved w n es p size = record {
  entries = es;
  current_size = size;
  threads = set w.threads n (record (thread w.threads n) { place = p });
}

pub inside : (ts : List Thread) (n : ℕ) → (n < length ts) ⊎ (thread ts n ≡ nobody)
inside [] n = inr refl
inside (t ∷ ts) zero = inl (omega arith)
inside (t ∷ ts) (suc n) = elim (inside ts n) [ inl h ↦ inl (omega arith) | inr e ↦ inr e ]

pub thread-moved :
    (w : World) (n m : ℕ) (es : List TableEntry) (p : Place) (size : ℕ)
    → ((thread w.threads n).place ≡ full → p ≡ full)
    → thread (moved w n es p size).threads m
      ≡ (if n == m then record (thread w.threads n) { place = p } else thread w.threads m)
thread-moved w n m es p size stays =
    thread-set w.threads n m (record (thread w.threads n) { place = p })
      (elim (inside w.threads n) [ inl h ↦ inl h | inr e ↦ inr (ground (arith, stays)) ])

module _ (es : List TableEntry) (i : ℕ) (e : TableEntry) (within : i < length es) where
  pub All-length :
      (is : List ℕ) → All (λ j. j < length es) is → All (λ j. j < length (set es i e)) is
  All-length is h = rw (length-set es i e) h

  -- An entry with a key keeps it where the write does.
  Has-set :
      (j : ℕ) (key : Str)
      → Has es j key
      → (i ≡ j → (e.in_use ≡ true) × (e.key ≡ key))
      → Has (set es i e) j key
  Has-set j key (low, used, its_key) h = elim (Bool-cases (i == j)) [
    | inl here ↦ let (used', its_key') = h (ground arith) in grind slot_laws
    | inr other ↦ grind slot_laws
  ]

  pub Agrees-set :
      (key : Str) (p : Place)
      → Agrees es key p
      → ((k : Str)
          → Has es i k
          → p ≢ full
          → (k ≡ key) ⊎ (owns p i ≡ true)
          → (e.in_use ≡ true) × (e.key ≡ k))
      → Agrees (set es i e) key p
  Agrees-set key (probing is) a h = All-length is a
  Agrees-set key (occupied j is) a h = (rw (length-set es i e) a.0, All-length is a.1)
  Agrees-set key (claimed j) a h =
      Has-set j [] a (λ same. h [] (rw same a) (λ e. cc) (inr (ground arith)))
  Agrees-set key (keyed j) a h = Has-set j key a (λ same. h key (rw same a) (λ e. cc) (inl refl))
  Agrees-set key (stored j) a h = Has-set j key a (λ same. h key (rw same a) (λ e. cc) (inl refl))
  Agrees-set key (matched j) a h = Has-set j key a (λ same. h key (rw same a) (λ e. cc) (inl refl))
  Agrees-set key (done j) a h = Has-set j key a (λ same. h key (rw same a) (λ e. cc) (inl refl))
  Agrees-set key full a h = tt
