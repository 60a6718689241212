-- ===== src/ReadWriteLock/Onward.antt =====
-- A step by which the threads that hold a `ReadWriteLock` of src/utils/threading.cpp, or wait for it,
-- go on.
use packet_classifier.Prelude.{
  ℕ, ◌+◌, ◌*◌, ◌<◌, ◌≡◌, refl, ◌⊎◌, inl, inr, true, List, [], ◌∷◌, none, arith, length,
  length-append,
}
use packet_classifier.Prelude.Bags.{count, without, count-without, length-without}
use packet_classifier.ReadWriteLock.{read_ready, read_unlock, write_ready, write_unlock}
use packet_classifier.ReadWriteLock.Fields.{IsValid}
use packet_classifier.ReadWriteLock.Waits.{
  Wake, nobody, one_writer, all_readers, Waits, wake, IsRunning, IsChosen, Step, read_unlock_wake,
  write_unlock_wake,
}
use packet_classifier.ReadWriteLock.Releases.{IsServed, wake-waits_of, no_count}

some_one : (xs : List ℕ) → 0 < length xs → (t : ℕ) × (0 < count t xs)
some_one [] h = absurd (omega arith)
some_one (x ∷ xs) h = (x, ground arith)

-- Nobody holds the lock.
abbrev pub IsUnheld : Waits → Type 0
IsUnheld s = (s.world.readers ≡ []) × (s.world.writers ≡ []) × (s.world.tried ≡ none)

writer_ready :
    (s : Waits)
    → IsUnheld s
    → 0 < length s.world.waiting
    → IsValid s.world
    → IsServed s
    → (t : ℕ) × (0 < count t s.woken_writers) × (write_ready s.world.lock ≡ true)
unfolding write_ready
writer_ready s (no_readers, no_writers, no_try) h v i =
    let ready : write_ready s.world.lock ≡ true = ground (arith, v.reading, v.mode) in
    elim (i.writers ready) [
      | inl asleep ↦
          let (t, waits) = some_one s.world.waiting h in (t, ground (arith, i.same t), ready)
      | inr some_woken ↦ let (t, woken) = some_one s.woken_writers some_woken in (t, woken, ready)
    ]

readers_ready :
    (s : Waits)
    → IsUnheld s
    → s.world.waiting ≡ []
    → IsValid s.world
    → IsServed s
    → (s.sleeping_readers ≡ []) × (read_ready s.world.lock ≡ true)
unfolding read_ready
readers_ready s (no_readers, no_writers, no_try) h v i =
    let ready : read_ready s.world.lock ≡ true = ground (arith, v.queued, v.mode) in
    (i.readers ready, ready)

-- Nobody holds the lock or waits for it, and it lets in whom it is asked to.
pub record IsDrained (s : Waits) : Type 0 where
  pub unheld : IsUnheld s
  pub no_writer_waits : s.world.waiting ≡ []
  pub none_woken : (s.woken_writers ≡ []) × (s.woken_readers ≡ [])
  pub none_asleep : (s.sleeping_writers ≡ []) × (s.sleeping_readers ≡ [])
  pub lets_in : (read_ready s.world.lock ≡ true) × (write_ready s.world.lock ≡ true)

unfoldable pub load : Waits → ℕ
load s =
    length s.world.readers
    + length s.world.writers
    + 2 * length s.world.waiting
    + 2 * (length s.woken_readers + length s.sleeping_readers)

wake-load : (k : Wake) (u : ℕ) (s : Waits) → load (wake k u s) ≡ load s
unfolding load
wake-load nobody u s = refl
wake-load one_writer u s = ground arith
wake-load all_readers u s = omega (arith, length-append s.sleeping_readers s.woken_readers)

List-cases : (xs : List ℕ) → (xs ≡ []) ⊎ (0 < length xs)
List-cases [] = inl refl
List-cases (x ∷ xs) = inr (omega arith)

chosen : (xs : List ℕ) → (u : ℕ) × IsChosen u xs
chosen [] = (0, inl refl)
chosen (x ∷ xs) = (x, inr (ground arith))

-- A thread unlocks what it holds, or a woken one is let in.
abbrev pub GoesOn : {s s' : Waits} → Step s s' → Type 0
GoesOn (Step.read s t woken ready) = Unit {0}
GoesOn (Step.read_done s t u runs held c) = Unit {0}
GoesOn (Step.write s t woken ready) = Unit {0}
GoesOn (Step.write_done s t u runs held c) = Unit {0}
GoesOn t = ⊥

pub data Onward (first : Waits) : Waits → Type 0 where
  here : Onward first first
  next : {s s' : Waits} → Onward first s → (t : Step s s') → GoesOn t → Onward first s'

-- No thread that holds the lock waits for it.
abbrev pub HoldersRun : Waits → Type 0
HoldersRun s = (t : ℕ) → 0 < count t s.world.readers + count t s.world.writers → IsRunning t s

-- What is kept until the lock is drained.
abbrev pub Draining : Waits → Type 0
Draining s = (s.world.tried ≡ none) × HoldersRun s

abbrev pub Advance : Waits → Type 0
Advance s = (s' : Waits) × (t : Step s s') × GoesOn t × Draining s' × (load s' < load s)

-- A notification does not matter to this.
wake-Draining : (k : Wake) (u : ℕ) (s : Waits) → Draining s → Draining (wake k u s)
wake-Draining nobody u s d = d
wake-Draining one_writer u s d = ground arith
wake-Draining all_readers u s d = (d.0, λ a h. rw (wake-waits_of all_readers u s a) (d.1 a h))

read_done-Advance : (s : Waits) → Draining s → 0 < length s.world.readers → Advance s
unfolding load
read_done-Advance s e h =
    let (t, held) = some_one s.world.readers h in
    let (u, c) = chosen s.sleeping_writers in
    let k = read_unlock_wake s.world.lock in
    let s' : Waits = record s {
      world = record (s.world) {
        lock = read_unlock s.world.lock;
        readers = without t s.world.readers;
      };
    } in
    (
      wake k u s',
      Step.read_done s t u (e.1 t (omega arith)) held c,
      tt,
      wake-Draining k u s' (e.0, λ a h. e.1 a (ground (arith, count-without t a s.world.readers))),
      omega (arith, wake-load k u s', length-without t s.world.readers held),
    )

write_done-Advance : (s : Waits) → Draining s → 0 < length s.world.writers → Advance s
unfolding load
write_done-Advance s e h =
    let (t, held) = some_one s.world.writers h in
    let (u, c) = chosen s.sleeping_writers in
    let k = write_unlock_wake t s.world.lock in
    let s' : Waits = record s {
      world = record (s.world) {
        lock = write_unlock t s.world.lock;
        writers = without t s.world.writers;
      };
    } in
    (
      wake k u s',
      Step.write_done s t u (e.1 t (omega arith)) held c,
      tt,
      wake-Draining k u s' (e.0, λ a h. e.1 a (ground (arith, count-without t a s.world.writers))),
      omega (arith, wake-load k u s', length-without t s.world.writers held),
    )

write-Advance :
    (s : Waits)
    → IsUnheld s
    → Draining s
    → 0 < length s.world.waiting
    → IsValid s.world
    → IsServed s
    → Advance s
unfolding load
write-Advance s free e h v i =
    let (t, woken, ready) = writer_ready s free h v i in
    (
      _,
      Step.write s t woken ready,
      tt,
      (e.0, λ a h'. ground (arith, e.1 a, i.once a, i.same a, count-without t a s.world.waiting)),
      ground (arith, i.same t, length-without t s.world.waiting),
    )

read-Advance :
    (s : Waits)
    → Draining s
    → 0 < length s.woken_readers
    → read_ready s.world.lock ≡ true
    → IsServed s
    → Advance s
unfolding load
read-Advance s e h ready i =
    let (t, woken) = some_one s.woken_readers h in
    (
      _,
      Step.read s t woken ready,
      tt,
      (e.0, λ a h'. ground (arith, e.1 a, i.once a, count-without t a s.woken_readers)),
      omega (arith, length-without t s.woken_readers woken),
    )

pub advance : (s : Waits) → Draining s → IsValid s.world → IsServed s → IsDrained s ⊎ Advance s
unfolding write_ready
advance s e v i = elim (List-cases s.world.readers) [
  | inr reads ↦ inr (read_done-Advance s e reads)
  | inl no_readers ↦ elim (List-cases s.world.writers) [
    | inr writes ↦ inr (write_done-Advance s e writes)
    | inl no_writers ↦ elim (List-cases s.world.waiting) [
      | inr waits ↦ inr (write-Advance s (no_readers, no_writers, e.0) e waits v i)
      | inl no_waiting ↦
          let free : IsUnheld s = (no_readers, no_writers, e.0) in
          let (no_sleepers, ready) = readers_ready s free no_waiting v i in
          elim (List-cases s.woken_readers) [
            | inr woken ↦ inr (read-Advance s e woken ready i)
            | inl no_woken ↦ inl (record {
              unheld = free;
              no_writer_waits = no_waiting;
              none_woken = (no_count s.woken_writers (λ t. ground (arith, i.same t)), no_woken);
              none_asleep =
                  (no_count s.sleeping_writers (λ t. ground (arith, i.same t)), no_sleepers);
              lets_in = (ready, ground (arith, v.reading, v.mode));
            })
          ]
    ]
  ]
]
