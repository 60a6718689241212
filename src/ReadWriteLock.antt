-- ===== src/ReadWriteLock.antt =====
-- `ReadWriteLock` of src/utils/threading.cpp. A thread id is a number, `none` is the id of no
-- thread. Each method holds the mutex but where it waits, so a method is one function on the state,
-- and a wait is a test with the function that runs once it holds. The counts are `int`s that the
-- number of the threads bounds.
pub mod Threads
pub mod Fields
pub mod Invariant
pub mod Exclusion
pub mod Stuck
pub mod Waits
pub mod Releases
pub mod Wakeups
pub mod Onward
pub mod Progress
pub mod Guards
use packet_classifier.Prelude.{
  ℕ, Bool, true, false, ◌&&◌, ◌||◌, not, Option, none, some, ◌==◌, if◌then◌else◌,
}
use packet_classifier.Prelude.Int.{ℤ, pos, suc_ℤ, pred_ℤ, ◌==ℤ◌}

pub record ReadWriteLock : Type 0 where
  pub active_readers : ℤ
  pub waiting_writers : ℤ
  pub writer_active : Bool
  pub writer_thread_id : Option ℕ
  pub recursive_write_count : ℤ

abbrev pub new : ReadWriteLock
new = record {
  active_readers = pos 0;
  waiting_writers = pos 0;
  writer_active = false;
  writer_thread_id = none;
  recursive_write_count = pos 0;
}

-- `writer_thread_id_ == current_tid`
abbrev pub is_thread : Option ℕ → ℕ → Bool
is_thread none t = false
is_thread (some u) t = u == t

-- What `readLock` waits for, and what it does then.
unfoldable pub read_ready : ReadWriteLock → Bool
read_ready l = not l.writer_active && l.waiting_writers ==ℤ pos 0

abbrev pub read_locked : ReadWriteLock → ReadWriteLock
read_locked l = record l { active_readers = suc_ℤ l.active_readers }

abbrev pub read_unlock : ReadWriteLock → ReadWriteLock
read_unlock l = record l { active_readers = pred_ℤ l.active_readers }

-- `owns_lock` is whether the mutex was free.
unfoldable pub try_read_lock : Bool → ReadWriteLock → ReadWriteLock × Bool
try_read_lock owns_lock l =
    if owns_lock && (not l.writer_active && l.waiting_writers ==ℤ pos 0)
    then (record l { active_readers = suc_ℤ l.active_readers }, true)
    else (l, false)

-- `writeLock` up to its wait; `true` is the recursive call, which returns at once.
unfoldable pub write_enter : ℕ → ReadWriteLock → ReadWriteLock × Bool
write_enter t l =
    if l.writer_active && is_thread l.writer_thread_id t
    then (record l { recursive_write_count = suc_ℤ l.recursive_write_count }, true)
    else (record l { waiting_writers = suc_ℤ l.waiting_writers }, false)

-- What it waits for, and what it does then.
unfoldable pub write_ready : ReadWriteLock → Bool
write_ready l = not l.writer_active && l.active_readers ==ℤ pos 0

abbrev pub write_locked : ℕ → ReadWriteLock → ReadWriteLock
write_locked t l = record l {
  waiting_writers = pred_ℤ l.waiting_writers;
  writer_active = true;
  writer_thread_id = some t;
  recursive_write_count = pos 1;
}

unfoldable pub write_unlock : ℕ → ReadWriteLock → ReadWriteLock
write_unlock t l =
    let count = pred_ℤ l.recursive_write_count in
    if not l.writer_active || not (is_thread l.writer_thread_id t)
    then l
    else if count ==ℤ pos 0
    then record l { recursive_write_count = count; writer_active = false; writer_thread_id = none }
    else record l { recursive_write_count = count }

unfoldable pub try_write_lock : Bool → ReadWriteLock → ReadWriteLock × Bool
try_write_lock owns_lock l =
    if owns_lock && (l.active_readers ==ℤ pos 0 && not l.writer_active)
    then (record l { writer_active = true }, true)
    else (l, false)
