-- ===== src/ConcurrentHash/History.antt =====
-- Removals in src/data_structures/concurrent_hash.cpp from a table that only insertions have filled.
use packet_classifier.Prelude.{
  ℕ, ◌<◌, ◌≡◌, ◌≢◌, ◌⊎◌, refl, Bool, true, false, List, [], ◌∷◌, none, some, if◌then◌else◌, arith,
  length, All, All-map, Ordered, set, replicate, get_or-replicate, Bool-cases, inl, inr,
}
use packet_classifier.Prelude.Int.{ℤ}
use packet_classifier.Text.{Str, same_text, same_text-eq}
use packet_classifier.ConcurrentHash.{
  TableEntry, ConcurrentHashTable, empty_entry, new, slot, insert_at, positions, lookup, insert,
  remove,
}
use packet_classifier.ConcurrentHash.Positions.{positions-lt, positions-Ordered}
use packet_classifier.ConcurrentHash.Writes.{
  holds, slot-set, Wrote, Wrote-other, slot-Wrote, insert_at-Wrote,
}
use packet_classifier.ConcurrentHash.Lookup.{IsValid, insert-cases, insert-IsValid, new-IsValid}
use packet_classifier.ConcurrentHash.Remove.{Absent, Settled, is_some, remove_at-Removed}

Absent-Settled :
    (entries : List TableEntry) (key : Str) (is : List ℕ)
    → Absent entries key is
    → Settled entries key is
Absent-Settled entries key [] h = tt
Absent-Settled entries key (i ∷ is) h = (Absent-Settled entries key is h.1, λ e. h.1)

holds-Wrote :
    (entries : List TableEntry) (key : Str) (value : ℤ) (entries' : List TableEntry) (other : Str)
    (j : ℕ)
    → Wrote entries key value entries'
    → same_text key other ≡ false
    → holds (slot entries' j) other ≡ holds (slot entries j) other
holds-Wrote entries key value entries' other j w apart =
    let (old, now) = Wrote-other entries key value entries' other w apart in
    ground (arith, slot-set entries w.at j w.entry w.within)

free-Wrote :
    (entries : List TableEntry) (key : Str) (value : ℤ) (entries' : List TableEntry) (j : ℕ)
    → Wrote entries key value entries'
    → (slot entries' j).in_use ≡ false
    → (slot entries j).in_use ≡ false
free-Wrote entries key value entries' j w e =
    ground (arith, slot-set entries w.at j w.entry w.within)

Settled-other :
    (entries : List TableEntry) (key : Str) (value : ℤ) (entries' : List TableEntry) (other : Str)
    (is : List ℕ)
    → Wrote entries key value entries'
    → same_text key other ≡ false
    → Settled entries other is
    → Settled entries' other is
Settled-other entries key value entries' other [] w apart s = tt
Settled-other entries key value entries' other (i ∷ is) w apart s = (
  Settled-other entries key value entries' other is w apart s.0,
  λ cond.
      let before : ((slot entries i).in_use ≡ false) ⊎ (holds (slot entries i) other ≡ true) =
        elim cond [
          | inl free ↦ inl (free-Wrote entries key value entries' i w free)
          | inr held ↦ inr (rw (← holds-Wrote entries key value entries' other i w apart) held)
        ] in
      All-map {P = λ j. holds (slot entries j) other ≡ false}
        {Q = λ j. holds (slot entries' j) other ≡ false}
        (λ j e. rw (holds-Wrote entries key value entries' other j w apart) e) is (s.1 before),
)

Absent-set :
    (entries : List TableEntry) (key : Str) (i : ℕ) (e : TableEntry) (is : List ℕ)
    → i < length entries
    → All (λ j. j ≢ i) is
    → Absent entries key is
    → Absent (set entries i e) key is
Absent-set entries key i e [] h d a = tt
Absent-set entries key i e (j ∷ is) h d a =
    (ground (arith, slot-set entries i j e h, d.0), Absent-set entries key i e is h d.1 a.1)

Settled-self :
    (entries : List TableEntry) (key : Str) (value : ℤ) (is : List ℕ) (entries' : List TableEntry)
    (claimed : Bool)
    → All (λ i. i < length entries) is
    → Ordered (λ a b. b ≢ a) is
    → insert_at entries key value is ≡ some (entries', claimed)
    → Settled entries key is
    → Settled entries' key is
unfolding insert_at
Settled-self entries key value [] entries' claimed h o e s = tt
Settled-self entries key value (i ∷ is) entries' claimed h o e s =
    elim (Bool-cases (slot entries i).in_use) [
      | inr unused ↦
          let absent =
            Absent-set entries key i (record { key = key; value = value; in_use = true }) is h.0 o.0
              (s.1 (inl unused)) in
          let eq : set entries i (record { key = key; value = value; in_use = true }) ≡ entries' =
            ground arith in
          let a : Absent entries' key is = rw (← eq) absent in
          (Absent-Settled entries' key is a, λ cond. a)
      | inl used ↦ elim (Bool-cases (same_text (slot entries i).key key)) [
        | inl same ↦
            let absent =
              Absent-set entries key i (record (slot entries i) { value = value }) is h.0 o.0
                (s.1 (inr (rw (used, same) refl))) in
            let eq : set entries i (record (slot entries i) { value = value }) ≡ entries' =
              ground arith in
            let a : Absent entries' key is = rw (← eq) absent in
            (Absent-Settled entries' key is a, λ cond. a)
        | inr other ↦
            let e' : insert_at entries key value is ≡ some (entries', claimed) = ground arith in
            let w = insert_at-Wrote entries key value is entries' claimed h.1 e' in
            let same = slot-Wrote entries key value entries' i w used other in
            (
              Settled-self entries key value is entries' claimed h.1 o.1 e' s.0,
              λ cond. absurd (elim cond [ inl free ↦ ground arith | inr held ↦ ground arith ]),
            )
      ]
    ]

blank-Absent : (n : ℕ) (key : Str) (is : List ℕ) → Absent (replicate n empty_entry) key is
blank-Absent n key [] = tt
blank-Absent n key (i ∷ is) = (rw (get_or-replicate n i empty_entry) refl, blank-Absent n key is)

module _ (std_hash : Str → ℕ) where
  -- No free entry and no second copy lies on the way to any key.
  pub record IsProbed (t : ConcurrentHashTable) : Type 0 where
    pub valid : IsValid t
    pub settled : (key : Str) → Settled t.table key (positions std_hash t key)

  insert-IsProbed :
      (t : ConcurrentHashTable) (key : Str) (value : ℤ)
      → IsProbed t
      → IsProbed (insert std_hash t key value)
  unfolding insert positions
  insert-IsProbed t key value p = elim (insert-cases std_hash t key value p.valid) [
    | inl (full, same) ↦ rw same p
    | inr (entries, claimed, room, does, w) ↦ record {
      valid = insert-IsValid std_hash t key value p.valid;
      settled = λ other. elim (Bool-cases (same_text key other)) [
        | inr apart ↦
            rw (insert, does)
              (Settled-other t.table key value entries other (positions std_hash t other) w apart
                (p.settled other))
        | inl same ↦
            rw (insert, does, ← same_text-eq key other same)
              (Settled-self t.table key value (positions std_hash t key) entries claimed
                (rw p.valid.width (positions-lt std_hash t key p.valid.positive))
                (positions-Ordered std_hash t key p.valid.positive) does (p.settled key))
      ];
    }
  ]

  pub new-IsProbed : (n : ℕ) → IsProbed (new n)
  unfolding new
  new-IsProbed n = record {
    valid = new-IsValid n;
    settled = λ key.
        Absent-Settled _ key (positions std_hash (new n) key)
          (blank-Absent _ key (positions std_hash (new n) key));
  }

  unfoldable pub insert_all : ConcurrentHashTable → List (Str × ℤ) → ConcurrentHashTable
  insert_all t [] = t
  insert_all t ((key, value) ∷ items) = insert_all (insert std_hash t key value) items

  pub insert_all-IsProbed :
      (t : ConcurrentHashTable) (items : List (Str × ℤ))
      → IsProbed t
      → IsProbed (insert_all t items)
  unfolding insert_all
  insert_all-IsProbed t [] p = p
  insert_all-IsProbed t ((key, value) ∷ items) p =
      insert_all-IsProbed (insert std_hash t key value) items (insert-IsProbed t key value p)

  remove-IsProbed :
      (t : ConcurrentHashTable) (key other : Str)
      → IsProbed t
      → ((remove std_hash t key).1 ≡ is_some (lookup std_hash t key))
        × (lookup std_hash (remove std_hash t key).0 other
            ≡ (if same_text key other then none else lookup std_hash t other))
  unfolding remove lookup positions
  remove-IsProbed t key other p =
      elim (remove_at-Removed t.table key (positions std_hash t key)
        (rw p.valid.width (positions-lt std_hash t key p.valid.positive)) (p.settled key)) [
          | inl (gone, not_done) ↦ (ground arith, ground (arith, same_text-eq key other))
          | inr (entries, does, r) ↦ (
            ground (arith, r.there),
            ground (
              arith,
              r.gone,
              same_text-eq key other,
              r.others other (positions std_hash t other),
            ),
          )
        ]

  -- From a table that only insertions have filled, a removal reports whether the key is there, takes
  -- it out, and changes no other lookup.
  pub remove-insert_all :
      (n : ℕ) (items : List (Str × ℤ)) (key other : Str)
      → ((remove std_hash (insert_all (new n) items) key).1
          ≡ is_some (lookup std_hash (insert_all (new n) items) key))
        × (lookup std_hash (remove std_hash (insert_all (new n) items) key).0 other ≡ (
            if same_text key other then none else lookup std_hash (insert_all (new n) items) other))
  remove-insert_all n items key other =
      remove-IsProbed (insert_all (new n) items) key other
        (insert_all-IsProbed (new n) items (new-IsProbed n))
