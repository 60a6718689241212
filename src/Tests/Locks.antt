-- ===== src/Tests/Locks.antt =====
-- A thread that reads, a thread that writes twice, and a thread that tries to write.
use packet_classifier.Prelude.{refl, true, [], ◌∷◌, none, some, arith}
use packet_classifier.Prelude.Int.{pos}
use packet_classifier.ReadWriteLock.{
  ReadWriteLock, new, read_ready, try_read_lock, write_enter, write_ready, write_locked,
  write_unlock, try_write_lock,
}
use packet_classifier.ReadWriteLock.Threads.{World, idle, Step, Run}
use packet_classifier.ReadWriteLock.Exclusion.{IsExclusive, Run-IsExclusive}
use packet_classifier.ReadWriteLock.Stuck.{IsClosed, Run-IsClosed}

lock_program : Unit {0}
unfolding read_ready try_read_lock write_enter write_ready write_unlock try_write_lock
lock_program = tt

abbrev queued : World
queued = record idle { lock = record new { waiting_writers = pos 1 }; waiting = 7 ∷ [] }

abbrev writing : World
writing = record {
  lock = write_locked 7 queued.lock;
  readers = [];
  writers = 7 ∷ [];
  waiting = [];
  tried = none;
}

abbrev writing_twice : World
writing_twice = record writing {
  lock = record (writing.lock) { recursive_write_count = pos 2 };
  writers = 7 ∷ 7 ∷ [];
}

twice : Run idle writing_twice
unfolding lock_program
twice =
    Run.next
      (Run.next (Run.next Run.here (Step.write_wait idle 7 queued.lock refl))
        (Step.write queued 7 (omega arith) refl))
      (Step.write_again writing 7 writing_twice.lock refl)

Run-IsExclusive_example : IsExclusive writing_twice
Run-IsExclusive_example = Run-IsExclusive twice

abbrev taken : ReadWriteLock
taken = record new { writer_active = true }

abbrev after_unlock : World
after_unlock = record idle { lock = taken; tried = some 5 }

-- The thread that took the lock lets it go, to no effect.
unlocked : Run (record idle { lock = taken; tried = some 5 }) after_unlock
unfolding lock_program
unlocked = Run.next Run.here (Step.try_done (record idle { lock = taken; tried = some 5 }) 5 refl)

Run-IsClosed_example : IsClosed after_unlock
Run-IsClosed_example = Run-IsClosed 5 true taken Run.here (unfold lock_program in refl) unlocked
