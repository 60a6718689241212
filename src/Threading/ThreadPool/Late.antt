-- ===== src/Threading/ThreadPool/Late.antt =====
-- `enqueue` beside `stop`, in src/utils/threading.cpp and its header.
use packet_classifier.Prelude.{ℕ, zero, suc, ◌≡◌, refl, ◌∙◌, true, [], ◌∷◌, arith}
use packet_classifier.Prelude.Bags.{without}
use packet_classifier.Threading.ThreadPool.{World, Step, Run, start, worker_turn, set_stop}

Step-live : {w w' : World} → Step w w' → w.live ≡ 0 → (w'.live ≡ 0) × (w'.started ≡ w.started)
Step-live (Step.pass w task going) z = (z, refl)
Step-live (Step.enqueue w task passed) z = (z, refl)
Step-live (Step.work w task p some_live ready turn) z = absurd (omega arith)
Step-live (Step.leave w left some_live ready turn) z = absurd (omega arith)
Step-live (Step.stop_all w) z = (z, refl)

Run-live :
    {first w : World} → Run first w → first.live ≡ 0 → (w.live ≡ 0) × (w.started ≡ first.started)
Run-live Run.here z = (z, refl)
Run-live (Run.next r s) z =
    let (none_live, same) = Run-live r z in
    let (still, as_before) = Step-live s none_live in (still, as_before ∙ same)

abbrev stopped : ℕ → ℕ → World
stopped task live = record {
  pool = record { tasks = []; stop = true };
  passed = task ∷ [];
  pushed = [];
  started = [];
  live = live;
}

abbrev pub pushed_late : ℕ → World
pushed_late task = record {
  pool = record { tasks = task ∷ []; stop = true };
  passed = without task (task ∷ []);
  pushed = task ∷ [];
  started = [];
  live = 0;
}

leave_all : (first : World) (task n : ℕ) → Run first (stopped task n) → Run first (stopped task 0)
unfolding worker_turn
leave_all first task zero r = r
leave_all first task (suc n) r =
    leave_all first task n (Run.next r (Step.leave (stopped task (suc n)) n refl refl refl))

late-Run : (workers task : ℕ) → Run (start workers) (pushed_late task)
unfolding set_stop
late-Run workers task =
    let passed =
      Run.next (Run.next Run.here (Step.pass (start workers) task refl))
        (Step.stop_all (record (start workers) { passed = task ∷ [] })) in
    Run.next (leave_all (start workers) task workers passed)
      (Step.enqueue (stopped task 0) task (ground arith))

-- With any number of workers, a caller that finds the pool going may push its task when the pool is
-- stopped and every worker has left; nothing is started from then on, whatever is done.
pub late_task :
    (workers task : ℕ) {w : World}
    → Run (pushed_late task) w
    → Run (start workers) (pushed_late task) × (w.started ≡ [])
late_task workers task r = (late-Run workers task, (Run-live r refl).1)
