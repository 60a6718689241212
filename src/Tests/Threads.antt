-- ===== src/Tests/Threads.antt =====
-- Deferred callbacks, and a thread pool with two workers.
use packet_classifier.Prelude.{
  ℕ, ◌+◌, ◌%◌, ◌^◌, ◌≡◌, refl, true, false, List, [], ◌∷◌, ◌++◌, arith, ◌==◌, if◌then◌else◌,
}
use packet_classifier.Threading.Rcu.{
  Rcu, new, call_rcu, call_all, run_callbacks, process_rcu_callbacks, synchronize_rcu,
}
use packet_classifier.Threading.Rcu.Deferred.{queued_by_all, synchronize_rcu_lem}
use packet_classifier.Threading.ThreadPool.{World, Step, Run, start, worker_turn, set_stop}
use packet_classifier.Threading.ThreadPool.Order.{IsOrderly, Run-IsOrderly}
use packet_classifier.Threading.ThreadPool.Late.{pushed_late, late_task}

-- Callback 1 queues 10 and 11, no other queues any.
abbrev queued_by : ℕ → List ℕ
queued_by c = if c == 1 then 10 ∷ 11 ∷ [] else []

abbrev pending : Rcu
pending = record new { deferred_callbacks = 1 ∷ 2 ∷ [] }

rcu_program : Unit {0}
unfolding call_rcu call_all run_callbacks process_rcu_callbacks synchronize_rcu
rcu_program = tt

synchronized :
    synchronize_rcu queued_by pending
    ≡ record { rcu_global_epoch = 2; deferred_callbacks = 10 ∷ 11 ∷ []; ran = 1 ∷ 2 ∷ [] }
unfolding rcu_program
synchronized = refl

synchronize_rcu_lem_example :
    ((synchronize_rcu queued_by pending).ran ≡ pending.ran ++ pending.deferred_callbacks)
    × ((synchronize_rcu queued_by pending).deferred_callbacks
        ≡ queued_by_all queued_by pending.deferred_callbacks)
    × ((synchronize_rcu queued_by pending).rcu_global_epoch
        ≡ (pending.rcu_global_epoch + 1) % 2 ^ 64)
synchronize_rcu_lem_example = synchronize_rcu_lem queued_by pending

abbrev passed : World
passed = record (start 2) { passed = 8 ∷ [] }

abbrev pushed : World
pushed = record (start 2) { pool = record { tasks = 8 ∷ []; stop = false }; pushed = 8 ∷ [] }

abbrev started : World
started = record (start 2) { pushed = 8 ∷ []; started = 8 ∷ [] }

abbrev closed : World
closed = record started { pool = record { tasks = []; stop = true } }

pool_program : Unit {0}
unfolding worker_turn set_stop
pool_program = tt

served : Run (start 2) closed
unfolding pool_program
served =
    Run.next
      (Run.next
        (Run.next (Run.next Run.here (Step.pass (start 2) 8 refl))
          (Step.enqueue passed 8 (omega arith)))
        (Step.work pushed 8 started.pool (omega arith) refl refl))
      (Step.stop_all started)

Run-IsOrderly_example : IsOrderly 2 closed
Run-IsOrderly_example = Run-IsOrderly 2 served

late_task_example : Run (start 2) (pushed_late 8) × ((pushed_late 8).started ≡ [])
late_task_example = late_task 2 8 Run.here
