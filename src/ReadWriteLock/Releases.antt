-- ===== src/ReadWriteLock/Releases.antt =====
-- What a release of `ReadWriteLock` in src/utils/threading.cpp does to the threads that sleep.
use packet_classifier.Prelude.{
  ℕ, ◌+◌, ◌≤◌, ◌<◌, ◌≡◌, refl, ◌⊎◌, inl, inr, Bool, true, ◌&&◌, ◌||◌, not, List, [], ◌∷◌, arith,
  length, Bool-cases,
}
use packet_classifier.Prelude.Int.{pos, pred_ℤ, ltb_ℤ, ◌==ℤ◌}
use packet_classifier.Prelude.Bags.{count, without, count-append, count-without, length-without}
use packet_classifier.ReadWriteLock.{is_thread, read_ready, read_unlock, write_ready, write_unlock}
use packet_classifier.ReadWriteLock.Threads
use packet_classifier.ReadWriteLock.Threads.{World, idle}
use packet_classifier.ReadWriteLock.Fields.{IsValid, no_length}
use packet_classifier.ReadWriteLock.Waits.{
  Wake, nobody, one_writer, all_readers, Waits, start, wake, waits_of, IsChosen, Step,
  read_unlock_wake, write_unlock_wake,
}

-- The writers that wait are woken or sleep.
abbrev Same : Waits → Type 0
Same s = (t : ℕ) → count t s.woken_writers + count t s.sleeping_writers ≡ count t s.world.waiting

abbrev SomeWoken : Waits → Type 0
SomeWoken s = (s.sleeping_writers ≡ []) ⊎ (0 < length s.woken_writers)

pub record IsServed (s : Waits) : Type 0 where
  pub same : Same s
  pub writers : write_ready s.world.lock ≡ true → SomeWoken s
  pub readers : read_ready s.world.lock ≡ true → s.sleeping_readers ≡ []
  pub once : (t : ℕ) → waits_of t s ≤ 1

pub wake-world : (k : Wake) (u : ℕ) (s : Waits) → (wake k u s).world ≡ s.world
wake-world nobody u s = refl
wake-world one_writer u s = ground arith
wake-world all_readers u s = refl

pub wake-waits_of : (k : Wake) (u : ℕ) (s : Waits) (t : ℕ) → waits_of t (wake k u s) ≡ waits_of t s
wake-waits_of nobody u s t = refl
wake-waits_of one_writer u s t = ground arith
wake-waits_of all_readers u s t = ground (arith, count-append t s.sleeping_readers s.woken_readers)

wake-Same : (k : Wake) (u : ℕ) (s : Waits) → Same s → Same (wake k u s)
wake-Same nobody u s h = h
wake-Same one_writer u s h = λ t. ground (arith, h t, count-without u t s.sleeping_writers)
wake-Same all_readers u s h = h

wake-SomeWoken :
    (u : ℕ) (s : Waits) → IsChosen u s.sleeping_writers → SomeWoken (wake one_writer u s)
wake-SomeWoken u s c = ground arith

pub no_count : (xs : List ℕ) → ((t : ℕ) → count t xs ≡ 0) → xs ≡ []
no_count [] h = refl
no_count (x ∷ xs) h = absurd (ground (arith, h x))

pub start-IsServed : IsServed start
start-IsServed = record {
  same = λ t. refl;
  writers = λ e. inl refl;
  readers = λ e. refl;
  once = λ t. omega arith;
}

-- Where nobody waits to write, no writer sleeps.
none_sleeps :
    (s : Waits)
    → Same s
    → IsValid s.world
    → s.world.lock.waiting_writers ≡ pos 0
    → s.sleeping_writers ≡ []
none_sleeps s h v e =
    let blank : s.world.waiting ≡ [] = no_length s.world.waiting (ground (arith, v.queued)) in
    no_count s.sleeping_writers (λ t. ground (arith, h t))

pub Step-world :
    {s s' : Waits} → Step s s' → Same s → (s'.world ≡ s.world) ⊎ Threads.Step s.world s'.world
Step-world (Step.call_read s t runs) h = inl refl
Step-world (Step.read s t woken ready) h = inr (Threads.Step.read s.world t ready)
Step-world (Step.read_sleeps s t woken ready) h = inl refl
Step-world (Step.read_done s t u runs held c) h =
    inr
      (rw (wake-world (read_unlock_wake s.world.lock) u _) (Threads.Step.read_done s.world t held))
Step-world (Step.try_read s t owns l runs does) h =
    inr (Threads.Step.try_read s.world t owns l does)
Step-world (Step.write_again s t l runs does) h = inr (Threads.Step.write_again s.world t l does)
Step-world (Step.call_write s t l runs does) h = inr (Threads.Step.write_wait s.world t l does)
Step-world (Step.write s t woken ready) h =
    inr (Threads.Step.write s.world t (omega (arith, h t)) ready)
Step-world (Step.write_sleeps s t woken ready) h = inl refl
Step-world (Step.write_done s t u runs held c) h = inr (
    rw (wake-world (write_unlock_wake t s.world.lock) u _) (Threads.Step.write_done s.world t held))
Step-world (Step.try_write s t owns l runs does) h =
    inr (Threads.Step.try_write s.world t owns l does)
Step-world (Step.try_done s t u runs tried c) h =
    inr (
      rw (wake-world (write_unlock_wake t s.world.lock) u _)
        (Threads.Step.try_done s.world t tried))
Step-world (Step.writer_wakes s t sleeps) h = inl refl
Step-world (Step.reader_wakes s t sleeps) h = inl refl

-- What is left to show of each kind of notification.
abbrev Enough : Wake → Waits → Type 0
Enough nobody s =
    (write_ready s.world.lock ≡ true → SomeWoken s)
    × (read_ready s.world.lock ≡ true → s.sleeping_readers ≡ [])
Enough one_writer s = read_ready s.world.lock ≡ true → s.sleeping_readers ≡ []
Enough all_readers s = s.sleeping_writers ≡ []

wake-IsServed :
    (k : Wake) (u : ℕ) (s : Waits)
    → Same s
    → ((t : ℕ) → waits_of t s ≤ 1)
    → IsChosen u s.sleeping_writers
    → Enough k s
    → IsServed (wake k u s)
wake-IsServed nobody u s h o c e = record { same = h; writers = e.0; readers = e.1; once = o }
wake-IsServed one_writer u s h o c e = record {
  same = wake-Same one_writer u s h;
  writers = λ ready. wake-SomeWoken u s c;
  readers = λ ready. ground (arith, e);
  once = λ t. rw (wake-waits_of one_writer u s t) (o t);
}
wake-IsServed all_readers u s h o c e = record {
  same = h;
  writers = λ ready. inl e;
  readers = λ ready. refl;
  once = λ t. rw (wake-waits_of all_readers u s t) (o t);
}

-- The two releases: who is notified, by what the lock then lets in.
pub read_done-IsServed :
    (s : Waits) (t u : ℕ)
    → 0 < count t s.world.readers
    → IsChosen u s.sleeping_writers
    → IsValid s.world
    → IsServed s
    → IsServed (
        wake (read_unlock_wake s.world.lock) u (record s {
          world = record (s.world) {
            lock = read_unlock s.world.lock;
            readers = without t s.world.readers;
          };
        }))
unfolding read_unlock_wake read_ready write_ready
read_done-IsServed s t u held c v i =
    let l = s.world.lock in
    let fewer = length-without t s.world.readers held in
    let w' : World = record (s.world) {
      lock = read_unlock l;
      readers = without t s.world.readers;
    } in
    let s' : Waits = record s { world = w' } in
    let asleep : read_ready (read_unlock l) ≡ true → s.sleeping_readers ≡ [] = i.readers in
    wake-IsServed (read_unlock_wake l) u s' i.same i.once c
      (elim (Bool-cases (pred_ℤ l.active_readers ==ℤ pos 0 && ltb_ℤ (pos 0) l.waiting_writers)) [
        | inl last ↦ rw (last, read_unlock_wake) asleep
        | inr other ↦
            rw (other, read_unlock_wake)
              (λ ready. inl (none_sleeps s i.same v (ground (arith, v.queued, v.reading))), asleep)
      ])

pub write_done-IsServed :
    (s : Waits) (t u : ℕ) (writers : List ℕ)
    → IsChosen u s.sleeping_writers
    → IsValid s.world
    → IsServed s
    → IsServed (
        wake (write_unlock_wake t s.world.lock) u (record s {
          world = record (s.world) { lock = write_unlock t s.world.lock; writers = writers };
        }))
unfolding write_unlock_wake write_unlock read_ready write_ready
write_done-IsServed s t u writers c v i =
    let l = s.world.lock in
    let waits : Bool = ltb_ℤ (pos 0) l.waiting_writers in
    wake-IsServed (write_unlock_wake t l) u _ i.same i.once c
      (elim (Bool-cases (not l.writer_active || not (is_thread l.writer_thread_id t))) [
        | inl other ↦ rw (other, write_unlock_wake, write_unlock) (i.writers, i.readers)
        | inr own ↦ elim (Bool-cases (pred_ℤ l.recursive_write_count ==ℤ pos 0)) [
          | inr more ↦
              rw (own, more, write_unlock_wake, write_unlock)
                (λ ready. absurd (ground arith), λ ready. absurd (ground arith))
          | inl last ↦ elim (Bool-cases waits) [
            | inl some_wait ↦
                rw (own, last, some_wait, write_unlock_wake, write_unlock)
                  (λ ready. absurd (ground arith))
            | inr none_wait ↦
                rw (own, last, none_wait, write_unlock_wake, write_unlock)
                  (none_sleeps s i.same v (ground (arith, v.queued)))
          ]
        ]
      ])
