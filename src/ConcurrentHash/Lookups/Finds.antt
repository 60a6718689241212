-- ===== src/ConcurrentHash/Lookups/Finds.antt =====
-- A lookup in src/data_structures/concurrent_hash.cpp that begins when an insertion of its key has
-- ended, while threads insert.
use packet_classifier.Prelude.{
  ℕ, ◌%◌, suc, ◌+◌, ◌-◌, ◌*◌, ◌≤◌, ◌<◌, ◌≡◌, ◌≢◌, refl, sym, ◌∙◌, ap, ◌⊎◌, inl, inr, false, List,
  [], ◌∷◌, Option, none, some, arith, All, length, get_or-replicate,
}
use packet_classifier.Prelude.Int.{ℤ, negsuc}
use packet_classifier.Text.{Str, is_empty}
use packet_classifier.ConcurrentHash.{TableEntry, ConcurrentHashTable, empty_entry, new, positions}
use packet_classifier.ConcurrentHash.Lookup.{new-IsValid}
use packet_classifier.ConcurrentHash.Rehash.{All-every}
use packet_classifier.ConcurrentHash.Inserts.{done, World, thread, run, begin}
use packet_classifier.ConcurrentHash.Inserts.Steps.{Has}
use packet_classifier.ConcurrentHash.Inserts.Invariant.{IsSound}
use packet_classifier.ConcurrentHash.Inserts.Ends.{run-length}
use packet_classifier.ConcurrentHash.Inserts.Finished.{begin-IsSound, first}
use packet_classifier.ConcurrentHash.Inserts.Items.{
  begin-thread, length-positions_from, item, AreNamed,
}
use packet_classifier.ConcurrentHash.Lookups.{
  Seek, seeking, used, equal, found, missing, look, Scene, turn, play,
}
use packet_classifier.ConcurrentHash.Lookups.Watch.{Gives, IsWatched, run-IsWatched}
use packet_classifier.ConcurrentHash.Lookups.Seen.{HalfSeen, Sees, play-Sees}

-- How many steps a lookup has left.
abbrev pub looks : Seek → ℕ
looks (seeking is) = 2 * length is + 2
looks (used i is) = 2 * length is + 3
looks (equal i) = 1
looks (found value) = 0
looks missing = 0

look-looks : (es : List TableEntry) (key : Str) (s : Seek) → looks (look es key s) ≤ looks s - 1
unfolding look
look-looks es key (seeking []) = omega arith
look-looks es key (seeking (i ∷ is)) = ground arith
look-looks es key (used i is) = ground arith
look-looks es key (equal i) = omega arith
look-looks es key (found value) = omega arith
look-looks es key missing = omega arith

-- The steps of the lookup in a schedule.
abbrev pub own_steps : List (Option ℕ) → ℕ
own_steps [] = 0
own_steps (none ∷ ms) = suc (own_steps ms)
own_steps (some n ∷ ms) = own_steps ms

play-looks :
    (key : Str) (c : Scene) (ms : List (Option ℕ))
    → looks (play key c ms).seek ≤ looks c.seek - own_steps ms
unfolding play turn
play-looks key c [] = omega arith
play-looks key c (none ∷ ms) =
    omega (arith, play-looks key (turn key c none) ms, look-looks c.world.entries key c.seek)
play-looks key c (some n ∷ ms) = play-looks key (turn key c (some n)) ms

-- A lookup that has no step left and had to see the key has found it.
settled :
    (H : Type 0) (w0 : World) (key : Str) (some_key : is_empty key ≡ false) (target : ℕ)
    (es : List TableEntry) (s : Seek)
    → looks s ≡ 0
    → Sees w0 key some_key target H es s
    → (value : ℤ) × (s ≡ found value) × (((value ≡ negsuc 0) × H) ⊎ Gives w0 key value)
settled H w0 key some_key target es (seeking is) h sees = absurd (omega arith)
settled H w0 key some_key target es (used i is) h sees = absurd (omega arith)
settled H w0 key some_key target es (equal i) h sees = absurd (omega arith)
settled H w0 key some_key target es (found value) h sees = (value, refl, sees)
settled H w0 key some_key target es missing h sees = absurd sees

length-positions :
    (std_hash : Str → ℕ) (t : ConcurrentHashTable) (key : Str)
    → length (positions std_hash t key) ≡ t.capacity
unfolding positions
length-positions std_hash t key =
    length-positions_from t.capacity (std_hash key % t.capacity) 0 t.capacity

module _ (std_hash : Str → ℕ) (size : ℕ) (items : List (Str × ℤ)) (named : AreNamed items) where
  first-IsWatched : IsWatched (first std_hash size items named) (first std_hash size items named)
  unfolding new
  first-IsWatched = record {
    sound = begin-IsSound std_hash size items named;
    texts = λ m. (refl, refl);
    filled = λ i. inl (rw (get_or-replicate _ i empty_entry) refl);
  }

  -- The thread of a key and a value is that of an item.
  Gives-item :
      (key : Str) (value : ℤ)
      → is_empty key ≡ false
      → Gives (first std_hash size items named) key value
      → (m : ℕ) × (m < length items) × (item items m ≡ (key, value))
  Gives-item key value some_key (m, its_key, its_value) =
      elim (begin-thread std_hash (new size) items m) [
        | inl (low, same) ↦
            let k : (item items m).0 ≡ key = ap (λ t. t.key) (sym same) ∙ its_key in
            let v : (item items m).1 ≡ value = ap (λ t. t.value) (sym same) ∙ its_value in
            (m, low, λ i. (k i, v i))
        | inr (high, none_there) ↦
            absurd
              (let blank : [] ≡ key = ap (λ t. t.key) (sym none_there) ∙ its_key in ground arith)
      ]

  -- The entry of a thread that has ended is among the positions that a lookup of its key probes.
  probed :
      (ns : List ℕ) (n target : ℕ) (key : Str)
      → IsSound (run (first std_hash size items named) ns)
      → (thread (run (first std_hash size items named) ns).threads n).place ≡ done target
      → All (λ i. i ≢ target) (positions std_hash (new size) key)
      → ⊥
  unfolding positions
  probed ns n target key s ended all =
      let there : Has (run (first std_hash size items named) ns).entries target
          (thread (run (first std_hash size items named) ns).threads n).key =
        rw ended at (s.agree n) in
      let low : target < (new size).capacity =
        rw (run-length (first std_hash size items named) ns, (new-IsValid size).width) at there.0 in
      let v = (new-IsValid size).positive in
      All-every (λ i. i ≢ target) (new size).capacity (std_hash key % (new size).capacity) target
        all (omega arith) low refl

  -- A lookup that begins when an insertion of its key into a new table has ended finds the key,
  -- where no key is empty and whatever the threads that insert have done and do, after at most twice
  -- the capacity and two steps of its own: with the value of an insertion of the key, or with -1;
  -- then, when the lookup read the value of an entry, a thread had written the key to the entry and
  -- not yet the value.
  pub concurrent_lookup :
      (ns : List ℕ) (n target : ℕ) (key : Str) (ms : List (Option ℕ))
      → is_empty key ≡ false
      → (thread (run (begin std_hash (new size) items) ns).threads n).key ≡ key
      → (thread (run (begin std_hash (new size) items) ns).threads n).place ≡ done target
      → 2 * (new size).capacity + 2 ≤ own_steps ms
      → (value : ℤ) × ((play key
            (record {
              world = run (begin std_hash (new size) items) ns;
              seek = seeking (positions std_hash (new size) key);
            })
            ms).seek
          ≡ found value)
        × (((value ≡ negsuc 0)
              × HalfSeen key
                  (record {
                    world = run (begin std_hash (new size) items) ns;
                    seek = seeking (positions std_hash (new size) key);
                  })
                  ms)
            ⊎ ((m : ℕ) × (m < length items) × (item items m ≡ (key, value))))
  concurrent_lookup ns n target key ms some_key its_key ended enough =
      let w0 : World = begin std_hash (new size) items in
      let w : World = run w0 ns in
      let v = run-IsWatched w0 w0 ns first-IsWatched in
      let there : Has w.entries target (thread w.threads n).key = rw ended at (v.sound.agree n) in
      let c : Scene = record { world = w; seek = seeking (positions std_hash (new size) key) } in
      let seen =
        play-Sees w0 key some_key target ⊥ c ms v (there.1, there.2 ∙ its_key)
          (probed ns n target key v.sound ended) in
      let (value, finds, what) =
        settled (⊥ ⊎ HalfSeen key c ms) w0 key some_key target (play key c ms).world.entries
          (play key c ms).seek
          (let few = play-looks key c ms in
            let many = length-positions std_hash (new size) key in omega arith)
          seen in
      (
        value,
        finds,
        elim what [
          | inl (fresh, inr half) ↦ inl (fresh, half)
          | inl (fresh, inl never) ↦ absurd never
          | inr given ↦ inr (Gives-item key value some_key given)
        ],
      )
