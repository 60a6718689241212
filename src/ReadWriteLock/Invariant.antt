-- ===== src/ReadWriteLock/Invariant.antt =====
-- How the fields of `ReadWriteLock` stand to the threads that use it.
use packet_classifier.Prelude.{
  ℕ, ◌<◌, ◌≡◌, inl, inr, refl, Bool, true, false, [], ◌∷◌, none, some, arith, length, Bool-cases,
  ◌&&◌, ◌==◌,
}
use packet_classifier.Prelude.Int.{pos, suc_ℤ, pred_ℤ}
use packet_classifier.Prelude.Bags.{count, without, length-without, All-without}
use packet_classifier.ReadWriteLock.{
  ReadWriteLock, is_thread, read_ready, read_locked, read_unlock, try_read_lock, write_enter,
  write_ready, write_locked, write_unlock, try_write_lock,
}
use packet_classifier.ReadWriteLock.Threads.{World, Step, Run}
use packet_classifier.ReadWriteLock.Fields.{IsValid, no_length, is_thread-eq, IsOwner-nil}

read-IsValid :
    (w : World) (t : ℕ)
    → read_ready w.lock ≡ true
    → IsValid w
    → IsValid (record w { lock = read_locked w.lock; readers = t ∷ w.readers })
unfolding read_ready
read-IsValid w t ready v = record {
  reading = ground arith;
  queued = v.queued;
  mode = ground arith;
  owners = v.owners;
}

read_unlock-IsValid :
    (w : World) (t : ℕ)
    → 0 < count t w.readers
    → IsValid w
    → IsValid (record w { lock = read_unlock w.lock; readers = without t w.readers })
read_unlock-IsValid w t held v = record {
  reading = ground (arith, length-without t w.readers held);
  queued = v.queued;
  mode = ground arith;
  owners = v.owners;
}

write_enter-IsValid :
    (w : World) (t : ℕ) (l : ReadWriteLock)
    → write_enter t w.lock ≡ (l, true)
    → IsValid w
    → IsValid (record w { lock = l; writers = t ∷ w.writers })
unfolding write_enter
write_enter-IsValid w t l does v =
    elim (Bool-cases (w.lock.writer_active && is_thread w.lock.writer_thread_id t)) [
      | inr waits ↦ absurd (ground arith)
      | inl again ↦
          let own = is_thread-eq w.lock.writer_thread_id t (ground arith) in
          let same : l
              ≡ record (w.lock) { recursive_write_count = suc_ℤ w.lock.recursive_write_count } =
            ground arith in
          rw same (record {
            reading = v.reading;
            queued = v.queued;
            mode = ground arith;
            owners = (own, v.owners);
          })
    ]

write_wait-IsValid :
    (w : World) (t : ℕ) (l : ReadWriteLock)
    → write_enter t w.lock ≡ (l, false)
    → IsValid w
    → IsValid (record w { lock = l; waiting = t ∷ w.waiting })
unfolding write_enter
write_wait-IsValid w t l does v =
    elim (Bool-cases (w.lock.writer_active && is_thread w.lock.writer_thread_id t)) [
      | inl again ↦ absurd (ground arith)
      | inr waits ↦
          let same : l ≡ record (w.lock) { waiting_writers = suc_ℤ w.lock.waiting_writers } =
            ground arith in
          rw same (record {
            reading = v.reading;
            queued = ground arith;
            mode = v.mode;
            owners = v.owners;
          })
    ]

write_locked-IsValid :
    (w : World) (t : ℕ)
    → 0 < count t w.waiting
    → write_ready w.lock ≡ true
    → IsValid w
    → IsValid (record w {
      lock = write_locked t w.lock;
      writers = t ∷ w.writers;
      waiting = without t w.waiting;
    })
unfolding write_ready
write_locked-IsValid w t waits ready v =
    let blank : w.writers ≡ [] = ground arith in
    let no_readers : w.readers ≡ [] = no_length w.readers (ground arith) in
    record {
      reading = v.reading;
      queued = ground (arith, length-without t w.waiting waits);
      mode = inr (inl (refl, rw blank refl, omega arith, no_readers, ground arith));
      owners = (refl, IsOwner-nil (some t) w.writers blank);
    }

write_unlock-IsValid :
    (w : World) (t : ℕ)
    → 0 < count t w.writers
    → IsValid w
    → IsValid (record w { lock = write_unlock t w.lock; writers = without t w.writers })
unfolding write_unlock
write_unlock-IsValid w t held v =
    let owns = All-without (λ u. w.lock.writer_thread_id ≡ some u) t w.writers held v.owners in
    let fewer = length-without t w.writers held in
    let on : w.lock.writer_active ≡ true = ground arith in
    let mine : is_thread w.lock.writer_thread_id t ≡ true = rw owns.0 (ground arith) in
    let depth : w.lock.recursive_write_count ≡ pos (length w.writers) = ground arith in
    let down : pred_ℤ w.lock.recursive_write_count ≡ pos (length (without t w.writers)) =
      ground arith in
    elim (Bool-cases (length (without t w.writers) == 0)) [
      | inl last ↦
          let same : write_unlock t w.lock ≡ record (w.lock) {
            recursive_write_count = pos 0;
            writer_active = false;
            writer_thread_id = none;
          } =
            ground arith in
          let blank = no_length (without t w.writers) (ground arith) in
          rw same (record {
            reading = v.reading;
            queued = v.queued;
            mode = inl (refl, refl, blank, ground arith);
            owners = IsOwner-nil none (without t w.writers) blank;
          })
      | inr more ↦
          let same : write_unlock t w.lock
              ≡ record (w.lock) { recursive_write_count = pos (length (without t w.writers)) } =
            ground arith in
          rw same (record {
            reading = v.reading;
            queued = v.queued;
            mode = inr (inl (on, refl, ground arith, ground arith, ground arith));
            owners = owns.1;
          })
    ]

pub try_write_lock-IsValid :
    (w : World) (t : ℕ) (owns_lock : Bool) (l : ReadWriteLock)
    → try_write_lock owns_lock w.lock ≡ (l, true)
    → IsValid w
    → IsValid (record w { lock = l; tried = some t })
unfolding try_write_lock
try_write_lock-IsValid w t owns_lock l does v = elim (Bool-cases w.lock.writer_active) [
  | inl on ↦ absurd (ground arith)
  | inr off ↦
      let same : l ≡ record (w.lock) { writer_active = true } = ground arith in
      let no_readers : w.readers ≡ [] = no_length w.readers (ground arith) in
      rw same (record {
        reading = v.reading;
        queued = v.queued;
        mode = inr (inr (refl, refl, ground arith, ground arith, no_readers));
        owners = v.owners;
      })
]

-- A `writeUnlock` by a thread that only `tryWriteLock` let in does nothing.
try_done-IsValid :
    (w : World) (t : ℕ)
    → w.tried ≡ some t
    → IsValid w
    → IsValid (record w { lock = write_unlock t w.lock })
unfolding write_unlock
try_done-IsValid w t tried v = let same : write_unlock t w.lock ≡ w.lock = ground arith in rw same v

Step-IsValid : {w w' : World} → Step w w' → IsValid w → IsValid w'
unfolding try_read_lock read_ready
Step-IsValid (Step.read w t ready) v = read-IsValid w t ready v
Step-IsValid (Step.read_done w t held) v = read_unlock-IsValid w t held v
Step-IsValid (Step.try_read w t owns l does) v =
    let ready : read_ready w.lock ≡ true = ground arith in
    let same : l ≡ read_locked w.lock = ground arith in rw same (read-IsValid w t ready v)
Step-IsValid (Step.write_again w t l does) v = write_enter-IsValid w t l does v
Step-IsValid (Step.write_wait w t l does) v = write_wait-IsValid w t l does v
Step-IsValid (Step.write w t waits ready) v = write_locked-IsValid w t waits ready v
Step-IsValid (Step.write_done w t held) v = write_unlock-IsValid w t held v
Step-IsValid (Step.try_write w t owns l does) v = try_write_lock-IsValid w t owns l does v
Step-IsValid (Step.try_done w t tried) v = try_done-IsValid w t tried v

pub Run-IsValid : {start w : World} → Run start w → IsValid start → IsValid w
Run-IsValid Run.here v = v
Run-IsValid (Run.next r s) v = Step-IsValid s (Run-IsValid r v)
