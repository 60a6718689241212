-- ===== src/ReadWriteLock/Wakeups.antt =====
-- Who sleeps on the condition variables of `ReadWriteLock`.
use mathlib.Core.Path.{subst}
use packet_classifier.Prelude.{sym, inl, inr, arith}
use packet_classifier.Prelude.Bags.{without, count-without}
use packet_classifier.ReadWriteLock.{
  read_ready, try_read_lock, write_enter, write_ready, try_write_lock,
}
use packet_classifier.ReadWriteLock.Threads
use packet_classifier.ReadWriteLock.Threads.{World, idle}
use packet_classifier.ReadWriteLock.Invariant.{Run-IsValid}
use packet_classifier.ReadWriteLock.Fields.{IsValid, idle-IsValid}
use packet_classifier.ReadWriteLock.Waits.{Waits, start, Step, Run}
use packet_classifier.ReadWriteLock.Releases.{
  IsServed, start-IsServed, Step-world, read_done-IsServed, write_done-IsServed,
}

pub Step-IsServed : {s s' : Waits} → Step s s' → IsValid s.world → IsServed s → IsServed s'
unfolding read_ready write_ready try_read_lock try_write_lock write_enter
Step-IsServed (Step.call_read s t runs) v i = record {
  same = i.same;
  writers = i.writers;
  readers = i.readers;
  once = λ a. ground (arith, i.once a);
}
Step-IsServed (Step.read s t woken ready) v i = record {
  same = i.same;
  writers = λ e. absurd (ground (arith, v.reading));
  readers = λ e. ground (arith, i.readers);
  once = λ a. ground (arith, i.once a, count-without t a s.woken_readers);
}
Step-IsServed (Step.read_sleeps s t woken ready) v i = record {
  same = i.same;
  writers = i.writers;
  readers = λ e. absurd (ground arith);
  once = λ a. ground (arith, i.once a, count-without t a s.woken_readers);
}
Step-IsServed (Step.read_done s t u runs held c) v i = read_done-IsServed s t u held c v i
Step-IsServed (Step.try_read s t owns l runs does) v i = record {
  same = i.same;
  writers = λ e. absurd (ground (arith, v.reading));
  readers = λ e. ground (arith, i.readers);
  once = i.once;
}
Step-IsServed (Step.write_again s t l runs does) v i = record {
  same = i.same;
  writers = λ e. ground (arith, i.writers);
  readers = λ e. ground (arith, i.readers);
  once = i.once;
}
Step-IsServed (Step.call_write s t l runs does) v i = record {
  same = λ a. ground (arith, i.same a);
  writers = λ e. inr (omega arith);
  readers = λ e. ground (arith, i.readers, v.queued);
  once = λ a. ground (arith, i.once a);
}
Step-IsServed (Step.write s t woken ready) v i = record {
  same = λ a. ground (
    arith,
    i.same a,
    i.same t,
    count-without t a s.woken_writers,
    count-without t a s.world.waiting,
  );
  writers = λ e. absurd (ground arith);
  readers = λ e. absurd (ground arith);
  once = λ a. ground (arith, i.once a, i.same t, count-without t a s.world.waiting);
}
Step-IsServed (Step.write_sleeps s t woken ready) v i = record {
  same = λ a. ground (arith, i.same a, count-without t a s.woken_writers);
  writers = λ e. absurd (ground arith);
  readers = i.readers;
  once = i.once;
}
Step-IsServed (Step.write_done s t u runs held c) v i =
    write_done-IsServed s t u (without t s.world.writers) c v i
Step-IsServed (Step.try_write s t owns l runs does) v i = record {
  same = i.same;
  writers = λ e. absurd (ground arith);
  readers = λ e. absurd (ground arith);
  once = i.once;
}
Step-IsServed (Step.try_done s t u runs tried c) v i =
    write_done-IsServed s t u s.world.writers c v i
Step-IsServed (Step.writer_wakes s t sleeps) v i = record {
  same = λ a. ground (arith, i.same a, count-without t a s.sleeping_writers);
  writers = λ e. inr (omega arith);
  readers = i.readers;
  once = i.once;
}
Step-IsServed (Step.reader_wakes s t sleeps) v i = record {
  same = i.same;
  writers = i.writers;
  readers = λ e. absurd (ground (arith, i.readers e));
  once = λ a. ground (arith, i.once a, count-without t a s.sleeping_readers);
}

pub Run-IsServed : {s : Waits} → Run start s → Threads.Run idle s.world × IsServed s
Run-IsServed Run.here = (Threads.Run.here, start-IsServed)
Run-IsServed (Run.next r t) =
    let (before, i) = Run-IsServed r in
    let v = Run-IsValid before idle-IsValid in
    (
      elim (Step-world t i.same) [
        | inl same ↦ subst (λ w. Threads.Run idle w) (sym same) before
        | inr one ↦ Threads.Run.next before one
      ],
      Step-IsServed t v i,
    )
