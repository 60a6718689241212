-- ===== src/ConcurrentHash/Inserts/Crossed.antt =====
-- Two concurrent calls of `insert` at an entry that a removal has freed, which still has its old key.
use packet_classifier.Prelude.{
  ℕ, ◌+◌, ◌%◌, ◌^◌, ◌<◌, ◌≡◌, refl, true, false, List, [], ◌∷◌, set, length, length-set, arith,
}
use packet_classifier.Prelude.Int.{ℤ}
use packet_classifier.Text.{Str, same_text, same_text_self}
use packet_classifier.ConcurrentHash.{TableEntry, slot}
use packet_classifier.ConcurrentHash.Writes.{slot_laws, slot-set}
use packet_classifier.ConcurrentHash.Inserts.{
  Place, probing, claimed, matched, done, World, thread, run,
}

-- The first thread claims the entry, the second one compares the old key, the first one writes its key
-- and its value, and the second one its value.
abbrev pub order : List ℕ
order = 0 ∷ 1 ∷ 1 ∷ 0 ∷ 0 ∷ 0 ∷ 1 ∷ []

module _ (key key' : Str) (value value' : ℤ) where
  abbrev pub two : List TableEntry → ℕ → Place → Place → World
  two es size p q = record {
    entries = es;
    current_size = size;
    threads =
        (record { key = key; value = value; place = p })
        ∷ (record { key = key'; value = value'; place = q })
        ∷ [];
  }

  -- The first three steps.
  to_matched :
      (es : List TableEntry) (size i : ℕ) (is js ns : List ℕ)
      → i < length es
      → (slot es i).in_use ≡ false
      → (slot es i).key ≡ key'
      → run (two es size (probing (i ∷ is)) (probing (i ∷ js))) (0 ∷ 1 ∷ 1 ∷ ns)
        ≡ run
            (two
              (set es i (record (slot es i) { in_use = true }))
              ((((size + 0) % 2 ^ 64 + 0) % 2 ^ 64 + 0) % 2 ^ 64)
              (claimed i)
              (matched i))
            ns
  unfolding run
  to_matched es size i is js ns h free old =
      let e1 : TableEntry = record (slot es i) { in_use = true } in
      let used : (slot (set es i e1) i).in_use ≡ true = grind slot_laws in
      let same : same_text (slot (set es i e1) i).key key' ≡ true =
        ground (arith, slot-set es i i e1 h, same_text_self key') in
      rw (free, used, same) refl

  -- The other four.
  to_done :
      (es : List TableEntry) (size i : ℕ)
      → i < length es
      → (slot es i).in_use ≡ true
      → let w = run (two es size (claimed i) (matched i)) (0 ∷ 0 ∷ 0 ∷ 1 ∷ []) in
        (slot w.entries i ≡ record { key = key; value = value'; in_use = true })
        × ((thread w.threads 0).place ≡ done i)
        × ((thread w.threads 1).place ≡ done i)
  unfolding run
  to_done es size i h used =
      let e1 : TableEntry = record (slot es i) { key = key } in
      let es1 = set es i e1 in
      let at1 = slot-set es i i e1 h in
      let e2 : TableEntry = record (slot es1 i) { value = value } in
      let es2 = set es1 i e2 in
      let at2 = slot-set es1 i i e2 (rw (length-set es i e1) h) in
      let e3 : TableEntry = record (slot es2 i) { value = value' } in
      let at3 = slot-set es2 i i e3 (rw (length-set es1 i e2, length-set es i e1) h) in
      (ground arith, refl, refl)

  -- Where the key of the second thread is the old key of a free entry that both probe first, their
  -- steps can be such that both calls succeed and the entry has the key of the first thread and the
  -- value of the second one.
  pub crossed_insert :
      (es : List TableEntry) (size i : ℕ) (is js : List ℕ)
      → i < length es
      → (slot es i).in_use ≡ false
      → (slot es i).key ≡ key'
      → let w = run (two es size (probing (i ∷ is)) (probing (i ∷ js))) order in
        (slot w.entries i ≡ record { key = key; value = value'; in_use = true })
        × ((thread w.threads 0).place ≡ done i)
        × ((thread w.threads 1).place ≡ done i)
  crossed_insert es size i is js h free old =
      let e1 : TableEntry = record (slot es i) { in_use = true } in
      rw (to_matched es size i is js (0 ∷ 0 ∷ 0 ∷ 1 ∷ []) h free old)
        (to_done (set es i e1) _ i (rw (length-set es i e1) h) (grind slot_laws))
