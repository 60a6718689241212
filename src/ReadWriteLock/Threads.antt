-- ===== src/ReadWriteLock/Threads.antt =====
-- Threads that use a lock, as steps: who reads, who writes, once for each recursive call, who waits
-- to write, and who was told by `tryWriteLock` to hold the lock.
use packet_classifier.Prelude.{ℕ, ◌<◌, ◌≡◌, Bool, true, false, List, [], ◌∷◌, Option, none, some}
use packet_classifier.Prelude.Bags.{count, without}
use packet_classifier.ReadWriteLock.{
  ReadWriteLock, new, read_ready, read_locked, read_unlock, try_read_lock, write_enter, write_ready,
  write_locked, write_unlock, try_write_lock,
}

pub record World : Type 0 where
  pub lock : ReadWriteLock
  pub readers : List ℕ
  pub writers : List ℕ
  pub waiting : List ℕ
  pub tried : Option ℕ

abbrev pub idle : World
idle = record { lock = new; readers = []; writers = []; waiting = []; tried = none }

-- A thread unlocks only what it holds.
pub data Step : World → World → Type 0 where
  read :
      (w : World) (t : ℕ)
      → read_ready w.lock ≡ true
      → Step w (record w { lock = read_locked w.lock; readers = t ∷ w.readers })
  read_done :
      (w : World) (t : ℕ)
      → 0 < count t w.readers
      → Step w (record w { lock = read_unlock w.lock; readers = without t w.readers })
  try_read :
      (w : World) (t : ℕ) (owns_lock : Bool) (l : ReadWriteLock)
      → try_read_lock owns_lock w.lock ≡ (l, true)
      → Step w (record w { lock = l; readers = t ∷ w.readers })
  write_again :
      (w : World) (t : ℕ) (l : ReadWriteLock)
      → write_enter t w.lock ≡ (l, true)
      → Step w (record w { lock = l; writers = t ∷ w.writers })
  write_wait :
      (w : World) (t : ℕ) (l : ReadWriteLock)
      → write_enter t w.lock ≡ (l, false)
      → Step w (record w { lock = l; waiting = t ∷ w.waiting })
  write :
      (w : World) (t : ℕ)
      → 0 < count t w.waiting
      → write_ready w.lock ≡ true
      → Step w (record w {
        lock = write_locked t w.lock;
        writers = t ∷ w.writers;
        waiting = without t w.waiting;
      })
  write_done :
      (w : World) (t : ℕ)
      → 0 < count t w.writers
      → Step w (record w { lock = write_unlock t w.lock; writers = without t w.writers })
  try_write :
      (w : World) (t : ℕ) (owns_lock : Bool) (l : ReadWriteLock)
      → try_write_lock owns_lock w.lock ≡ (l, true)
      → Step w (record w { lock = l; tried = some t })
  try_done :
      (w : World) (t : ℕ) → w.tried ≡ some t → Step w (record w { lock = write_unlock t w.lock })

pub data Run (start : World) : World → Type 0 where
  here : Run start start
  next : {w w' : World} → Run start w → Step w w' → Run start w'
