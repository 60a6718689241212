-- ===== src/Tests/Waiting.antt =====
-- A thread that reads, and a writer and a reader that sleep until it has done.
use packet_classifier.Prelude.{refl, [], ◌∷◌, arith}
use packet_classifier.Prelude.Int.{pos}
use packet_classifier.ReadWriteLock.{new, read_locked, read_ready, write_enter, write_ready}
use packet_classifier.ReadWriteLock.Threads.{idle}
use packet_classifier.ReadWriteLock.Waits.{Waits, start, Step, Run}
use packet_classifier.ReadWriteLock.Onward.{Onward, HoldersRun, IsDrained}
use packet_classifier.ReadWriteLock.Progress.{Run-IsDrained}

wait_program : Unit {0}
unfolding read_ready write_enter write_ready
wait_program = tt

abbrev called : Waits
called = record start { woken_readers = 1 ∷ [] }

abbrev reading : Waits
reading = record start { world = record idle { lock = read_locked new; readers = 1 ∷ [] } }

abbrev writer_called : Waits
writer_called = record reading {
  world = record (reading.world) {
    lock = record (reading.world.lock) { waiting_writers = pos 1 };
    waiting = 2 ∷ [];
  };
  woken_writers = 2 ∷ [];
}

abbrev writer_sleeps : Waits
writer_sleeps = record writer_called { woken_writers = []; sleeping_writers = 2 ∷ [] }

abbrev reader_called : Waits
reader_called = record writer_sleeps { woken_readers = 3 ∷ [] }

abbrev both_sleep : Waits
both_sleep = record reader_called { woken_readers = []; sleeping_readers = 3 ∷ [] }

both_wait : Run start both_sleep
unfolding wait_program
both_wait =
    Run.next
      (Run.next
        (Run.next
          (Run.next
            (Run.next (Run.next Run.here (Step.call_read start 1 refl))
              (Step.read called 1 (omega arith) refl))
            (Step.call_write reading 2 writer_called.world.lock refl refl))
          (Step.write_sleeps writer_called 2 (omega arith) refl))
        (Step.call_read writer_sleeps 3 refl))
      (Step.read_sleeps reader_called 3 (omega arith) refl)

holder_runs : HoldersRun both_sleep
holder_runs t h = ground arith

Run-IsDrained_example : (s' : Waits) × Onward both_sleep s' × IsDrained s'
Run-IsDrained_example = Run-IsDrained both_sleep both_wait refl holder_runs
