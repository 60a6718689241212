-- ===== src/ConcurrentHash/Lookups/Early.antt =====
-- A lookup in src/data_structures/concurrent_hash.cpp beside an insertion of its key that has written
-- the key and not yet the value.
use packet_classifier.Prelude.{
  ℕ, ◌<◌, ◌≡◌, refl, true, false, List, [], ◌∷◌, Option, none, some, set, length, length-set, arith,
}
use packet_classifier.Prelude.Int.{ℤ}
use packet_classifier.Text.{Str, same_text, same_text_self}
use packet_classifier.ConcurrentHash.{TableEntry, slot}
use packet_classifier.ConcurrentHash.Writes.{slot_laws, slot-set}
use packet_classifier.ConcurrentHash.Inserts.{Thread, probing, step}
use packet_classifier.ConcurrentHash.Lookups.{Scene, seeking, found, play}

-- The thread claims the entry and writes its key; the lookup makes its three steps.
abbrev pub schedule : List (Option ℕ)
schedule = some 0 ∷ some 0 ∷ none ∷ none ∷ none ∷ []

abbrev pub scene : List TableEntry → ℕ → Str → ℤ → ℕ → List ℕ → List ℕ → List Thread → Scene
scene es size key value i is js ts = record {
  world = record {
    entries = es;
    current_size = size;
    threads = (record { key = key; value = value; place = probing (i ∷ is) }) ∷ ts;
  };
  seek = seeking (i ∷ js);
}

-- Where an insertion and a lookup of its key both probe a free entry first, their steps can be such
-- that the lookup finds the key with the value that the entry had before, whatever is inserted.
pub early_lookup :
    (es : List TableEntry) (size : ℕ) (key : Str) (value : ℤ) (i : ℕ) (is js : List ℕ)
    (ts : List Thread)
    → i < length es
    → (slot es i).in_use ≡ false
    → (play key (scene es size key value i is js ts) schedule).seek ≡ found (slot es i).value
unfolding play step
early_lookup es size key value i is js ts h free =
    let e1 : TableEntry = record (slot es i) { in_use = true } in
    let es1 : List TableEntry = set es i e1 in
    let at1 : slot es1 i ≡ e1 = grind slot_laws in
    let e2 : TableEntry = record (slot es1 i) { key = key } in
    let es2 : List TableEntry = set es1 i e2 in
    let at2 : slot es2 i ≡ e2 = ground (arith, slot-set es1 i i e2 (rw (length-set es i e1) h)) in
    let used : (slot es2 i).in_use ≡ true = rw (at2, at1) refl in
    let same : same_text (slot es2 i).key key ≡ true = rw at2 (same_text_self key) in
    rw (free, used, same, at2, at1) refl
