-- ===== src/ReadWriteLock/Stuck.antt =====
-- `ReadWriteLock` after `tryWriteLock`, which stores no thread id.
use packet_classifier.Prelude.{ℕ, ◌≡◌, Bool, true, false, [], none, some, arith}
use packet_classifier.ReadWriteLock.{
  ReadWriteLock, read_ready, try_read_lock, write_enter, write_ready, write_unlock, try_write_lock,
}
use packet_classifier.ReadWriteLock.Threads.{World, idle, Step, Run}
use packet_classifier.ReadWriteLock.Invariant.{Run-IsValid, try_write_lock-IsValid}
use packet_classifier.ReadWriteLock.Fields.{idle-IsValid}

-- The lock is taken by no thread, and nobody holds it otherwise.
abbrev IsStuck : World → Type 0
IsStuck w =
    (w.lock.writer_active ≡ true)
    × (w.lock.writer_thread_id ≡ none)
    × (w.writers ≡ [])
    × (w.readers ≡ [])

Step-IsStuck : {w w' : World} → Step w w' → IsStuck w → IsStuck w'
unfolding read_ready try_read_lock write_enter write_ready write_unlock try_write_lock
Step-IsStuck (Step.read w t ready) s = absurd (ground arith)
Step-IsStuck (Step.read_done w t held) s = absurd (ground arith)
Step-IsStuck (Step.try_read w t owns l does) s = absurd (ground arith)
Step-IsStuck (Step.write_again w t l does) s = absurd (ground arith)
Step-IsStuck (Step.write_wait w t l does) s = ground arith
Step-IsStuck (Step.write w t waits ready) s = absurd (ground arith)
Step-IsStuck (Step.write_done w t held) s = absurd (ground arith)
Step-IsStuck (Step.try_write w t owns l does) s = absurd (ground arith)
Step-IsStuck (Step.try_done w t tried) s = ground arith

Run-IsStuck : {start w : World} → Run start w → IsStuck start → IsStuck w
Run-IsStuck Run.here s = s
Run-IsStuck (Run.next r t) s = Step-IsStuck t (Run-IsStuck r s)

-- Nobody is let in: neither the waits nor the tries succeed, and no release changes that.
pub record IsClosed (w : World) : Type 0 where
  pub nobody_writes : w.writers ≡ []
  pub nobody_reads : w.readers ≡ []
  pub read_waits : read_ready w.lock ≡ false
  pub write_waits : write_ready w.lock ≡ false
  pub try_read_fails : (owns_lock : Bool) → (try_read_lock owns_lock w.lock).1 ≡ false
  pub try_write_fails : (owns_lock : Bool) → (try_write_lock owns_lock w.lock).1 ≡ false
  pub no_release : (t : ℕ) → write_unlock t w.lock ≡ w.lock

IsStuck-IsClosed : (w : World) → IsStuck w → IsClosed w
unfolding read_ready try_read_lock write_ready write_unlock try_write_lock
IsStuck-IsClosed w s = record {
  nobody_writes = s.2;
  nobody_reads = s.3;
  read_waits = ground arith;
  write_waits = ground arith;
  try_read_fails = λ owns_lock. ground arith;
  try_write_fails = λ owns_lock. ground arith;
  no_release = λ t. ground arith;
}

-- After `tryWriteLock` has succeeded once, whatever the threads do, nobody is ever let in again, the
-- thread that it let in having called `writeUnlock` or not.
pub Run-IsClosed :
    {w w' : World} (t : ℕ) (owns_lock : Bool) (l : ReadWriteLock)
    → Run idle w
    → try_write_lock owns_lock w.lock ≡ (l, true)
    → Run (record w { lock = l; tried = some t }) w'
    → IsClosed w'
unfolding try_write_lock
Run-IsClosed {w = w} {w' = w'} t owns_lock l before does after =
    let v = Run-IsValid before idle-IsValid in
    let v' = try_write_lock-IsValid w t owns_lock l does v in
    IsStuck-IsClosed w' (Run-IsStuck after (ground (arith, v'.mode)))
