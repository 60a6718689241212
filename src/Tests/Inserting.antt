-- ===== src/Tests/Inserting.antt =====
-- Threads that insert at once, all of whose keys have the same first position.
use packet_classifier.Prelude.{
  ℕ, zero, suc, ◌+◌, ◌*◌, ◌≤◌, ◌<◌, ◌≡◌, ◌⊎◌, refl, false, true, List, [], ◌∷◌, ◌++◌, none, some,
  length, arith,
}
use packet_classifier.Prelude.Int.{ℤ, pos}
use packet_classifier.Prelude.Bags.{count}
use packet_classifier.Text.{Str, codes}
use packet_classifier.ConcurrentHash.{TableEntry, new, slot, lookup, empty_entry}
use packet_classifier.ConcurrentHash.Inserts.{World, thread, begin, run, probing, done, full}
use packet_classifier.ConcurrentHash.Inserts.Ends.{IsEnded}
use packet_classifier.ConcurrentHash.Inserts.Finished.{insert-IsEnded, concurrent_inserts}
use packet_classifier.ConcurrentHash.Inserts.Items.{item, left_by}
use packet_classifier.ConcurrentHash.Inserts.Crossed.{two, order, crossed_insert}

abbrev zero_hash : Str → ℕ
zero_hash key = 0

abbrev items : List (Str × ℤ)
items = (codes "a", pos 1) ∷ (codes "b", pos 2) ∷ (codes "a", pos 3) ∷ []

-- The threads in turn, eight times.
abbrev turns : List ℕ
turns =
    (0 ∷ 1 ∷ 2 ∷ 0 ∷ 1 ∷ 2 ∷ 0 ∷ 1 ∷ 2 ∷ 0 ∷ 1 ∷ 2 ∷ [])
    ++ (2 ∷ 1 ∷ 0 ∷ 2 ∷ 1 ∷ 0 ∷ 2 ∷ 1 ∷ 0 ∷ 2 ∷ 1 ∷ 0 ∷ [])

capacity_two : (new 2).capacity ≡ 2
unfolding new
capacity_two = refl

enough : (n : ℕ) → n < length items → 2 * (new 2).capacity + 4 ≤ count n turns
enough zero h = omega (arith, capacity_two)
enough (suc zero) h = omega (arith, capacity_two)
enough (suc (suc zero)) h = omega (arith, capacity_two)
enough (suc (suc (suc n))) h = absurd (omega arith)

concurrent_inserts_example :
    ((n : ℕ) → IsEnded (thread (run (begin zero_hash (new 2) items) turns).threads n).place)
    × (((n : ℕ) × (value : ℤ) × (n < length items)
          × (item items n ≡ (codes "a", value))
          × (lookup zero_hash
                (left_by (new 2) (run (begin zero_hash (new 2) items) turns))
                (codes "a")
              ≡ some value))
        ⊎ ((lookup zero_hash
                (left_by (new 2) (run (begin zero_hash (new 2) items) turns))
                (codes "a")
              ≡ none)
            × ((n : ℕ)
                → n < length items
                → (item items n).0 ≡ codes "a"
                → (thread (run (begin zero_hash (new 2) items) turns).threads n).place ≡ full)))
concurrent_inserts_example =
    concurrent_inserts zero_hash 2 items (refl, (refl, (refl, tt))) turns (codes "a") enough refl

-- Only the last call has taken all of its steps.
abbrev last_alone : List ℕ
last_alone = 0 ∷ 1 ∷ 0 ∷ 2 ∷ 2 ∷ 2 ∷ 1 ∷ 2 ∷ 2 ∷ 2 ∷ 2 ∷ 2 ∷ []

insert-IsEnded_example :
    IsEnded (thread (run (begin zero_hash (new 2) items) last_alone).threads 2).place
insert-IsEnded_example =
    insert-IsEnded zero_hash (new 2) items last_alone 2 (omega (arith, capacity_two))

-- The first entry was freed by a removal of "b".
abbrev freed : List TableEntry
freed = (record { key = codes "b"; value = pos 1; in_use = false }) ∷ empty_entry ∷ []

abbrev crossed : World
crossed =
    two (codes "a") (codes "b") (pos 2) (pos 3) freed 0 (probing (0 ∷ 1 ∷ []))
      (probing (0 ∷ 1 ∷ []))

crossed_insert_example :
    (slot (run crossed order).entries 0 ≡ record { key = codes "a"; value = pos 3; in_use = true })
    × ((thread (run crossed order).threads 0).place ≡ done 0)
    × ((thread (run crossed order).threads 1).place ≡ done 0)
crossed_insert_example =
    crossed_insert (codes "a") (codes "b") (pos 2) (pos 3) freed 0 0 (1 ∷ []) (1 ∷ []) (omega arith)
      refl refl
