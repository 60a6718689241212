-- ===== src/Threading/ThreadPool/Order.antt =====
-- The order of the tasks of `SimpleThreadPool`, and the turn in which a worker leaves.
use mathlib.Core.List.{append-nil}
use packet_classifier.Prelude.{
  list_laws, ℕ, ◌≡◌, ◌⊎◌, inl, inr, refl, sym, ◌∙◌, true, [], ◌∷◌, ◌++◌, arith, Bool-cases,
}
use packet_classifier.Threading.ThreadPool.{
  SimpleThreadPool, World, Step, Run, start, worker_turn, run_task, exit, set_stop,
}

-- Before the stop all workers are there.
pub record IsOrderly (workers : ℕ) (w : World) : Type 0 where
  pub order : w.pushed ≡ w.started ++ w.pool.tasks
  pub at_work : (w.pool.stop ≡ true) ⊎ (w.live ≡ workers)

-- What a turn takes is the first task.
pub turn_first :
    (p p' : SimpleThreadPool) (task : ℕ)
    → worker_turn p ≡ run_task task p'
    → (p.tasks ≡ task ∷ p'.tasks) × (p'.stop ≡ p.stop)
unfolding worker_turn
turn_first p p' task e = ground arith

pub turn_exit : (p : SimpleThreadPool) → worker_turn p ≡ exit → (p.stop ≡ true) × (p.tasks ≡ [])
unfolding worker_turn
turn_exit p e = ground arith

Step-IsOrderly :
    (workers : ℕ) {w w' : World} → Step w w' → IsOrderly workers w → IsOrderly workers w'
unfolding set_stop
Step-IsOrderly workers (Step.pass w task going) o = record { order = o.order; at_work = o.at_work }
Step-IsOrderly workers (Step.enqueue w task passed) o = record {
  order = rw o.order (simp list_laws refl);
  at_work = o.at_work;
}
Step-IsOrderly workers (Step.work w task p some_live ready turn) o =
    let (first, same) = turn_first w.pool p task turn in
    record { order = rw (o.order, first) (simp list_laws refl); at_work = rw same o.at_work }
Step-IsOrderly workers (Step.leave w left some_live ready turn) o =
    let (stopped, none_left) = turn_exit w.pool turn in
    record { order = o.order; at_work = inl stopped }
Step-IsOrderly workers (Step.stop_all w) o = elim (Bool-cases w.pool.stop) [
  | inl on ↦ rw (set_stop, on) (record { order = o.order; at_work = inl refl })
  | inr off ↦ rw (set_stop, off) (record { order = o.order; at_work = inl refl })
]

start-IsOrderly : (workers : ℕ) → IsOrderly workers (start workers)
start-IsOrderly workers = record { order = refl; at_work = inr refl }

-- Whatever callers and workers do, the tasks that have been started and then those in the queue are
-- the pushed ones in the order of the pushes, each as often as pushed; and until the pool is stopped
-- no worker has left.
pub Run-IsOrderly : (workers : ℕ) {w : World} → Run (start workers) w → IsOrderly workers w
Run-IsOrderly workers Run.here = start-IsOrderly workers
Run-IsOrderly workers (Run.next r s) = Step-IsOrderly workers s (Run-IsOrderly workers r)

-- A worker that leaves does so after the stop and when every task pushed so far has been started.
pub leave-IsOrderly :
    (workers : ℕ) (w : World)
    → Run (start workers) w
    → worker_turn w.pool ≡ exit
    → (w.pool.stop ≡ true) × (w.started ≡ w.pushed)
leave-IsOrderly workers w r turn =
    let (stopped, none_left) = turn_exit w.pool turn in
    let o = Run-IsOrderly workers r in
    (stopped, sym (o.order ∙ rw none_left (append-nil w.started)))
