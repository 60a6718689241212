-- ===== src/Threading/ThreadPool/Projection.antt =====
-- The waits of the workers of `SimpleThreadPool` in src/utils/threading.cpp, forgotten.
use packet_classifier.Prelude.{ℕ, zero, suc, ◌≡◌, refl, inl, inr, true, arith, Bool-cases}
use packet_classifier.Threading.ThreadPool
use packet_classifier.Threading.ThreadPool.{
  SimpleThreadPool, World, worker_ready, worker_turn, run_task, exit, set_stop,
}
use packet_classifier.Threading.ThreadPool.Waits.{Waits, start, Step, Run, notify_one}
use packet_classifier.Threading.ThreadPool.Wakeups.{IsServed, Run-IsServed}

notify_one-world : (s : Waits) (asleep : ℕ) → s.asleep ≡ asleep → (notify_one s).world ≡ s.world
notify_one-world s zero e = rw e refl
notify_one-world s (suc n) e = rw e refl

-- A step of the workers with their waits is one of the workers, or none.
Step-World :
    {first : World} {s s' : Waits}
    → Step s s'
    → IsServed s
    → ThreadPool.Run first s.world
    → ThreadPool.Run first s'.world
unfolding set_stop
Step-World (Step.pass s task going) i r =
    ThreadPool.Run.next r (ThreadPool.Step.pass s.world task going)
Step-World (Step.enqueue s task passed) i r =
    ThreadPool.Run.next r (ThreadPool.Step.enqueue s.world task passed)
Step-World (Step.notice s n h) i r =
    rw (notify_one-world (record s { notices = n }) s.asleep refl) r
Step-World (Step.sleep s n h unready) i r = r
Step-World (Step.wake_up s n h) i r = r
Step-World (Step.work s n task p h ready turn) i r =
    ThreadPool.Run.next r
      (ThreadPool.Step.work s.world task p (let c = i.workers in omega arith) ready turn)
Step-World (Step.task_done s n h) i r = r
Step-World (Step.leave s n left h some_live ready turn) i r =
    ThreadPool.Run.next r (ThreadPool.Step.leave s.world left some_live ready turn)
Step-World (Step.halt_pass s going) i r = r
Step-World (Step.halt s n h) i r = elim (Bool-cases s.world.pool.stop) [
  | inl on ↦ rw (← on) r
  | inr off ↦
      let stores : set_stop s.world.pool ≡ record (s.world.pool) { stop = true } = ground arith in
      rw (← stores) (ThreadPool.Run.next r (ThreadPool.Step.stop_all s.world))
]
Step-World (Step.notice_all s n h) i r = r

pub Run-World :
    (workers : ℕ) {s : Waits}
    → Run (start workers) s
    → ThreadPool.Run (ThreadPool.start workers) s.world
Run-World workers Run.here = ThreadPool.Run.here
Run-World workers (Run.next r t) = Step-World t (Run-IsServed workers r) (Run-World workers r)
