-- ===== src/ReadWriteLock/Waits.antt =====
-- The condition variables of `ReadWriteLock`. A thread whose call waits is woken, that is about to test
-- what it waits for, or sleeps. The tests and the updates are those of the module above; a wait that
-- has just been called is a woken one.
use packet_classifier.Prelude.{
  ℕ, ◌+◌, ◌<◌, ◌≡◌, ◌⊎◌, Bool, true, false, ◌&&◌, ◌||◌, not, List, [], ◌∷◌, ◌++◌, some, ◌==◌,
  if◌then◌else◌,
}
use packet_classifier.Prelude.Int.{pos, pred_ℤ, ltb_ℤ, ◌==ℤ◌}
use packet_classifier.Prelude.Bags.{count, without}
use packet_classifier.ReadWriteLock.{
  ReadWriteLock, is_thread, read_ready, read_locked, read_unlock, try_read_lock, write_enter,
  write_ready, write_locked, write_unlock, try_write_lock,
}
use packet_classifier.ReadWriteLock.Threads.{World, idle}

pub data Wake : Type 0 where
  nobody one_writer all_readers : Wake

-- What `readUnlock` notifies.
unfoldable pub read_unlock_wake : ReadWriteLock → Wake
read_unlock_wake l =
    if pred_ℤ l.active_readers ==ℤ pos 0 && ltb_ℤ (pos 0) l.waiting_writers
    then one_writer
    else nobody

-- What `writeUnlock` notifies.
unfoldable pub write_unlock_wake : ℕ → ReadWriteLock → Wake
write_unlock_wake t l =
    if not l.writer_active || not (is_thread l.writer_thread_id t)
    then nobody
    else if pred_ℤ l.recursive_write_count ==ℤ pos 0
    then (if ltb_ℤ (pos 0) l.waiting_writers then one_writer else all_readers)
    else nobody

pub record Waits : Type 0 where
  pub world : World
  pub woken_writers : List ℕ
  pub sleeping_writers : List ℕ
  pub woken_readers : List ℕ
  pub sleeping_readers : List ℕ

abbrev pub start : Waits
start = record {
  world = idle;
  woken_writers = [];
  sleeping_writers = [];
  woken_readers = [];
  sleeping_readers = [];
}

-- `notify_one` wakes the thread `t`, and none if no thread sleeps; `notify_all` wakes them all.
abbrev pub wake : Wake → ℕ → Waits → Waits
wake nobody t s = s
wake one_writer t s = if count t s.sleeping_writers == 0 then s else record s {
  woken_writers = t ∷ s.woken_writers;
  sleeping_writers = without t s.sleeping_writers;
}
wake all_readers t s = record s {
  woken_readers = s.sleeping_readers ++ s.woken_readers;
  sleeping_readers = [];
}

-- The thread that `notify_one` may wake.
abbrev pub IsChosen : ℕ → List ℕ → Type 0
IsChosen t sleeping = (sleeping ≡ []) ⊎ (0 < count t sleeping)

-- How often a thread waits to read or to write.
abbrev pub waits_of : ℕ → Waits → ℕ
waits_of t s = count t s.woken_readers + count t s.sleeping_readers + count t s.world.waiting

-- A thread whose call waits does nothing else.
abbrev pub IsRunning : ℕ → Waits → Type 0
IsRunning t s = waits_of t s ≡ 0

-- A thread may also wake with no notification.
pub data Step : Waits → Waits → Type 0 where
  call_read :
      (s : Waits) (t : ℕ)
      → IsRunning t s
      → Step s (record s { woken_readers = t ∷ s.woken_readers })
  read :
      (s : Waits) (t : ℕ)
      → 0 < count t s.woken_readers
      → read_ready s.world.lock ≡ true
      → Step s (record s {
        world = record (s.world) { lock = read_locked s.world.lock; readers = t ∷ s.world.readers };
        woken_readers = without t s.woken_readers;
      })
  read_sleeps :
      (s : Waits) (t : ℕ)
      → 0 < count t s.woken_readers
      → read_ready s.world.lock ≡ false
      → Step s (record s {
        woken_readers = without t s.woken_readers;
        sleeping_readers = t ∷ s.sleeping_readers;
      })
  read_done :
      (s : Waits) (t u : ℕ)
      → IsRunning t s
      → 0 < count t s.world.readers
      → IsChosen u s.sleeping_writers
      → Step s (
          wake (read_unlock_wake s.world.lock) u (record s {
            world = record (s.world) {
              lock = read_unlock s.world.lock;
              readers = without t s.world.readers;
            };
          }))
  try_read :
      (s : Waits) (t : ℕ) (owns_lock : Bool) (l : ReadWriteLock)
      → IsRunning t s
      → try_read_lock owns_lock s.world.lock ≡ (l, true)
      → Step s (record s { world = record (s.world) { lock = l; readers = t ∷ s.world.readers } })
  write_again :
      (s : Waits) (t : ℕ) (l : ReadWriteLock)
      → IsRunning t s
      → write_enter t s.world.lock ≡ (l, true)
      → Step s (record s { world = record (s.world) { lock = l; writers = t ∷ s.world.writers } })
  call_write :
      (s : Waits) (t : ℕ) (l : ReadWriteLock)
      → IsRunning t s
      → write_enter t s.world.lock ≡ (l, false)
      → Step s (record s {
        world = record (s.world) { lock = l; waiting = t ∷ s.world.waiting };
        woken_writers = t ∷ s.woken_writers;
      })
  write :
      (s : Waits) (t : ℕ)
      → 0 < count t s.woken_writers
      → write_ready s.world.lock ≡ true
      → Step s (record s {
        world = record (s.world) {
          lock = write_locked t s.world.lock;
          writers = t ∷ s.world.writers;
          waiting = without t s.world.waiting;
        };
        woken_writers = without t s.woken_writers;
      })
  write_sleeps :
      (s : Waits) (t : ℕ)
      → 0 < count t s.woken_writers
      → write_ready s.world.lock ≡ false
      → Step s (record s {
        woken_writers = without t s.woken_writers;
        sleeping_writers = t ∷ s.sleeping_writers;
      })
  write_done :
      (s : Waits) (t u : ℕ)
      → IsRunning t s
      → 0 < count t s.world.writers
      → IsChosen u s.sleeping_writers
      → Step s (
          wake (write_unlock_wake t s.world.lock) u (record s {
            world = record (s.world) {
              lock = write_unlock t s.world.lock;
              writers = without t s.world.writers;
            };
          }))
  try_write :
      (s : Waits) (t : ℕ) (owns_lock : Bool) (l : ReadWriteLock)
      → IsRunning t s
      → try_write_lock owns_lock s.world.lock ≡ (l, true)
      → Step s (record s { world = record (s.world) { lock = l; tried = some t } })
  try_done :
      (s : Waits) (t u : ℕ)
      → IsRunning t s
      → s.world.tried ≡ some t
      → IsChosen u s.sleeping_writers
      → Step s (
          wake
            (write_unlock_wake t s.world.lock)
            u
            (record s { world = record (s.world) { lock = write_unlock t s.world.lock } }))
  writer_wakes :
      (s : Waits) (t : ℕ)
      → 0 < count t s.sleeping_writers
      → Step s (record s {
        woken_writers = t ∷ s.woken_writers;
        sleeping_writers = without t s.sleeping_writers;
      })
  reader_wakes :
      (s : Waits) (t : ℕ)
      → 0 < count t s.sleeping_readers
      → Step s (record s {
        woken_readers = t ∷ s.woken_readers;
        sleeping_readers = without t s.sleeping_readers;
      })

pub data Run (first : Waits) : Waits → Type 0 where
  here : Run first first
  next : {s s' : Waits} → Run first s → Step s s' → Run first s'
