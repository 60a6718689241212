-- ===== src/Tests/Tasks.antt =====
-- A worker that sleeps, and a task that is pushed for it.
use packet_classifier.Prelude.{◌≤◌, ◌⊎◌, inl, refl, false, [], ◌∷◌, arith}
use packet_classifier.Threading.ThreadPool.Waits.{Waits, start, Step, Run, notify_one}
use packet_classifier.Threading.ThreadPool.Progress.{Onward, GoesOn, IsDone, pending, Run-IsDone}

abbrev slept : Waits
slept = record (start 1) { awake = 0; asleep = 1 }

abbrev task_coming : Waits
task_coming = record slept { world = record (slept.world) { passed = 7 ∷ [] } }

abbrev task_there : Waits
task_there = record slept {
  world = record (slept.world) { pool = record { tasks = 7 ∷ []; stop = false }; pushed = 7 ∷ [] };
  notices = 1;
}

one_task : Run (start 1) task_there
one_task =
    Run.next
      (Run.next (Run.next Run.here (Step.sleep (start 1) 0 refl refl)) (Step.pass slept 7 refl))
      (Step.enqueue task_coming 7 (omega arith))

Run-IsDone_example :
    (1 ≤ pending task_there)
    × (IsDone (notify_one (record task_there { notices = 0 }))
        ⊎ ((s : Waits) × (t : Step (notify_one (record task_there { notices = 0 })) s) × GoesOn t))
Run-IsDone_example =
    Run-IsDone 1 one_task (inl (omega arith)) 1 (notify_one (record task_there { notices = 0 }))
      (Onward.next Onward.here (Step.notice task_there 0 refl) tt)
