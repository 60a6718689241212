-- ===== src/ConcurrentHash/Inserts/Finished.antt =====
-- The table after concurrent calls of `insert`.
use packet_classifier.Prelude.{
  ℕ, ◌+◌, ◌*◌, ◌%◌, ◌≤◌, ◌<◌, ◌≡◌, refl, sym, ◌∙◌, ap, ◌⊎◌, inl, inr, false, List, [], none, some,
  length, get_or-replicate, arith,
}
use packet_classifier.Prelude.Int.{ℤ}
use packet_classifier.Prelude.Bags.{count}
use packet_classifier.Text.{Str, same_text-eq, same_text_self, is_empty}
use packet_classifier.ConcurrentHash.{
  ConcurrentHashTable, empty_entry, new, slot, positions, lookup,
}
use packet_classifier.ConcurrentHash.Positions.{positions-lt}
use packet_classifier.ConcurrentHash.Lookup.{new-IsValid}
use packet_classifier.ConcurrentHash.Writes.{holds}
use packet_classifier.ConcurrentHash.Remove.{Absent}
use packet_classifier.ConcurrentHash.Rehash.{All-every}
use packet_classifier.ConcurrentHash.Inserts.{full, World, thread, run, begin}
use packet_classifier.ConcurrentHash.Inserts.Invariant.{IsSound}
use packet_classifier.ConcurrentHash.Inserts.Moves.{run-IsSound}
use packet_classifier.ConcurrentHash.Inserts.Ends.{IsEnded, run-IsEnded, run_text, run-length}
use packet_classifier.ConcurrentHash.Inserts.Items.{
  lookup_at-holds, item, length-positions_from, IsEnded-owns, IsEnded-Has, begin-thread, All-item,
  AreNamed, left_by,
}

-- A call of `insert` has ended once its thread has taken twice the capacity and four steps, whatever
-- the entries hold at the start and whichever steps other calls of `insert` take in between.
pub insert-IsEnded :
    (std_hash : Str → ℕ) (t : ConcurrentHashTable) (items : List (Str × ℤ)) (ns : List ℕ) (n : ℕ)
    → 2 * t.capacity + 4 ≤ count n ns
    → IsEnded (thread (run (begin std_hash t items) ns).threads n).place
unfolding positions
insert-IsEnded std_hash t items ns n enough =
    run-IsEnded (begin std_hash t items) ns n (elim (begin-thread std_hash t items n) [
      | inl (low, same) ↦ rw same (
          omega (
            arith,
            length-positions_from t.capacity (std_hash (item items n).0 % t.capacity) 0 t.capacity,
          ))
      | inr (high, none_there) ↦ rw none_there (omega arith)
    ])

module _ (std_hash : Str → ℕ) (size : ℕ) (items : List (Str × ℤ)) (named : AreNamed items) where
  abbrev pub first : World
  first = begin std_hash (new size) items

  abbrev probes : Str → List ℕ
  probes key = positions std_hash (new size) key

  pub begin-IsSound : IsSound first
  unfolding new
  begin-IsSound = record {
    agree = λ n. elim (begin-thread std_hash (new size) items n) [
      | inl (low, same) ↦
          let v = new-IsValid size in
          rw (same, v.width) (positions-lt std_hash (new size) (item items n).0 v.positive)
      | inr (high, none_there) ↦ rw none_there tt
    ];
    named = λ n. elim (begin-thread std_hash (new size) items n) [
      | inl (low, same) ↦ inr (rw same (All-item (λ x. is_empty x.0 ≡ false) items n named low))
      | inr (high, none_there) ↦ inl (rw none_there refl)
    ];
    one = λ n m i h k. absurd (elim (begin-thread std_hash (new size) items n) [
      | inl (low, same) ↦ let e = rw same at h in cc
      | inr (high, none_there) ↦ let e = rw none_there at h in cc
    ]);
    blank = λ i free. rw (get_or-replicate _ i empty_entry) refl;
    source = λ i used. absurd (let e = rw (get_or-replicate _ i empty_entry) at used in cc);
  }

  module _ (ns : List ℕ)
      (enough : (n : ℕ) → n < length items → 2 * (new size).capacity + 4 ≤ count n ns) where
    abbrev last : World
    last = run first ns

    -- The threads beyond the items have nothing to do.
    all-IsEnded : (n : ℕ) → IsEnded (thread last.threads n).place
    all-IsEnded n = elim (begin-thread std_hash (new size) items n) [
      | inl (low, same) ↦ insert-IsEnded std_hash (new size) items ns n (enough n low)
      | inr (high, none_there) ↦ run-IsEnded first ns n (rw none_there (omega arith))
    ]

    -- A thread with a key that is not empty is that of an item.
    item_of :
        (n : ℕ) (key : Str)
        → is_empty key ≡ false
        → (thread last.threads n).key ≡ key
        → (n < length items) × (item items n ≡ (key, (thread last.threads n).value))
    item_of n key some_key its =
        let (k, v) = run_text first ns n in
        elim (begin-thread std_hash (new size) items n) [
          | inl (low, same) ↦
              let e : (item items n).0 ≡ key = ap (λ t. t.key) (sym same) ∙ sym k ∙ its in
              let e' : (item items n).1 ≡ (thread last.threads n).value =
                ap (λ t. t.value) (sym same) ∙ sym v in
              (low, λ i. (e i, e' i))
          | inr (high, none_there) ↦
              let e : (thread first.threads n).key ≡ [] = rw none_there refl in
              absurd (ground arith)
        ]

    thread_key :
        (n : ℕ) (key : Str)
        → n < length items
        → (item items n).0 ≡ key
        → (thread last.threads n).key ≡ key
    thread_key n key low its = elim (begin-thread std_hash (new size) items n) [
      | inl (low', same) ↦ (run_text first ns n).0 ∙ ap (λ t. t.key) same ∙ its
      | inr (high, none_there) ↦ absurd (omega arith)
    ]

    -- Where no entry has the key, its threads have found the table full.
    all_full :
        (key : Str)
        → Absent last.entries key (probes key)
        → (n : ℕ) → (thread last.threads n).key ≡ key
        → (thread last.threads n).place ≡ full
    unfolding positions
    all_full key absent n its =
        let s = run-IsSound first ns begin-IsSound in
        elim (IsEnded-Has last.entries (thread last.threads n).key (thread last.threads n).place
          (all-IsEnded n) (s.agree n)) [
            | inr stuck ↦ stuck
            | inl (i, (within, used, its_key)) ↦
                let low : i < (new size).capacity =
                  rw (run-length first ns, (new-IsValid size).width) at within in
                let v = (new-IsValid size).positive in
                let not_here =
                  All-every (λ j. holds (slot last.entries j) key ≡ false) (new size).capacity
                    (std_hash key % (new size).capacity) i absent (ground arith) low in
                let same = same_text_self key in absurd (ground arith)
          ]

  -- Threads that insert into a new table at once, each of a key that is not empty: whatever the order
  -- of their steps, once each has taken twice the capacity and four of its own, each call has ended,
  -- and a lookup of a key that is not empty gives the value of one of the insertions of it; or it
  -- gives none, and each insertion of the key has found the table full.
  pub concurrent_inserts :
      (ns : List ℕ) (key : Str)
      → ((n : ℕ) → n < length items → 2 * (new size).capacity + 4 ≤ count n ns)
      → is_empty key ≡ false
      → ((n : ℕ) → IsEnded (thread (run first ns).threads n).place)
        × (((n : ℕ) × (value : ℤ) × (n < length items)
              × (item items n ≡ (key, value))
              × (lookup std_hash (left_by (new size) (run first ns)) key ≡ some value))
            ⊎ ((lookup std_hash (left_by (new size) (run first ns)) key ≡ none)
                × ((n : ℕ)
                    → n < length items
                    → (item items n).0 ≡ key
                    → (thread (run first ns).threads n).place ≡ full)))
  unfolding lookup positions
  concurrent_inserts ns key enough some_key =
      let w = run first ns in
      let s = run-IsSound first ns begin-IsSound in
      (
        all-IsEnded ns enough,
        elim (lookup_at-holds w.entries key (probes key)) [
          | inr (i, here, found) ↦ elim (s.source i (ground arith)) [
            | inl (n, owned) ↦
                let not_owned =
                  IsEnded-owns (thread w.threads n).place i (all-IsEnded ns enough n) in
                absurd cc
            | inr (n, its_key, its_value) ↦
                let same = same_text-eq (slot w.entries i).key key (ground arith) in
                let (low, at) = item_of ns enough n key some_key (its_key ∙ same) in
                inl (n, (thread w.threads n).value, low, at, found ∙ ap some (sym its_value))
          ]
          | inl (gone, absent) ↦ inr (
            gone,
            λ n low its. all_full ns enough key absent n (thread_key ns enough n key low its),
          )
        ],
      )
