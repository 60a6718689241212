-- ===== src/Threading/ThreadPool/Wakeups.antt =====
-- No worker of `SimpleThreadPool` in src/utils/threading.cpp sleeps for ever over a task.
use packet_classifier.Prelude.{
  ℕ, zero, suc, false, ◌∙◌, ◌+◌, ◌≤◌, ◌<◌, ◌≡◌, ◌⊎◌, refl, sym, inl, inr, true, [], ◌∷◌, arith,
  length, length-append,
}
use packet_classifier.Threading.ThreadPool.{SimpleThreadPool, worker_ready}
use packet_classifier.Threading.ThreadPool.Order.{turn_first, turn_exit}
use packet_classifier.Threading.ThreadPool.Waits.{Waits, start, Step, Run, notify_one}

-- While a worker sleeps, each task in the queue has a worker that is awake or a notification to come,
-- and a stopped pool a notification of all.
pub record IsServed (s : Waits) : Type 0 where
  pub workers : s.world.live ≡ s.awake + s.asleep + s.running
  pub tasks : (s.asleep ≡ 0) ⊎ (length s.world.pool.tasks ≤ s.notices + s.awake)
  pub stop : s.world.pool.stop ≡ true → (s.asleep ≡ 0) ⊎ (0 < s.halted)

idle : (p : SimpleThreadPool) → worker_ready p ≡ false → (p.stop ≡ false) × (length p.tasks ≡ 0)
idle p h = ground arith

notify_one-IsServed :
    (s : Waits) (n asleep : ℕ)
    → s.asleep ≡ asleep
    → s.notices ≡ suc n
    → IsServed s
    → IsServed (notify_one (record s { notices = n }))
notify_one-IsServed s n zero e h i =
    rw e (record { workers = i.workers; tasks = inl e; stop = i.stop })
notify_one-IsServed s n (suc k) e h i =
    let c = i.workers in
    rw e (record {
      workers = omega arith;
      tasks = inr (ground (arith, i.tasks));
      stop = λ st. ground (arith, i.stop st);
    })

pub Step-IsServed : {s s' : Waits} → Step s s' → IsServed s → IsServed s'
Step-IsServed (Step.pass s task going) i = record {
  workers = i.workers;
  tasks = i.tasks;
  stop = i.stop;
}
Step-IsServed (Step.enqueue s task passed) i =
    let more = length-append s.world.pool.tasks (task ∷ []) in
    record { workers = i.workers; tasks = ground (arith, i.tasks, more); stop = i.stop }
Step-IsServed (Step.notice s n h) i = notify_one-IsServed s n s.asleep refl h i
Step-IsServed (Step.sleep s n h unready) i =
    let (going, none_left) = idle s.world.pool unready in
    let c = i.workers in
    record { workers = omega arith; tasks = inr (omega arith); stop = λ st. absurd cc }
Step-IsServed (Step.wake_up s n h) i =
    let c = i.workers in
    record {
      workers = omega arith;
      tasks = ground (arith, i.tasks);
      stop = λ st. ground (arith, i.stop st);
    }
Step-IsServed (Step.work s n task p h ready turn) i =
    let (first, same) = turn_first s.world.pool p task turn in
    let c = i.workers in
    let shorter : length s.world.pool.tasks ≡ suc (length p.tasks) = rw first refl in
    record {
      workers = omega arith;
      tasks = ground (arith, i.tasks);
      stop = λ st. i.stop (sym same ∙ st);
    }
Step-IsServed (Step.task_done s n h) i =
    let c = i.workers in
    record { workers = omega arith; tasks = ground (arith, i.tasks); stop = i.stop }
Step-IsServed (Step.leave s n left h some_live ready turn) i =
    let (stopped, none_left) = turn_exit s.world.pool turn in
    let c = i.workers in
    record { workers = omega arith; tasks = inr (rw none_left (omega arith)); stop = i.stop }
Step-IsServed (Step.halt_pass s going) i = record {
  workers = i.workers;
  tasks = i.tasks;
  stop = i.stop;
}
Step-IsServed (Step.halt s n h) i = record {
  workers = i.workers;
  tasks = i.tasks;
  stop = λ st. inr (omega arith);
}
Step-IsServed (Step.notice_all s n h) i =
    let c = i.workers in record { workers = omega arith; tasks = inl refl; stop = λ st. inl refl }

start-IsServed : (workers : ℕ) → IsServed (start workers)
start-IsServed workers = record { workers = omega arith; tasks = inl refl; stop = λ st. inl refl }

pub Run-IsServed : (workers : ℕ) {s : Waits} → Run (start workers) s → IsServed s
Run-IsServed workers Run.here = start-IsServed workers
Run-IsServed workers (Run.next r t) = Step-IsServed t (Run-IsServed workers r)
