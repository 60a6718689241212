-- ===== src/Threading/ThreadPool/Waits.antt =====
-- The condition variable of `SimpleThreadPool` in src/utils/threading.cpp and its header: which of
-- the workers sleep, and the notifications, which a caller makes after it has released the mutex.
use packet_classifier.Prelude.{ℕ, zero, suc, ◌+◌, ◌<◌, ◌≡◌, true, false, [], ◌∷◌, ◌++◌}
use packet_classifier.Prelude.Bags.{count, without}
use packet_classifier.Threading.ThreadPool
use packet_classifier.Threading.ThreadPool.{
  SimpleThreadPool, World, push, worker_ready, worker_turn, run_task, exit,
}

-- `awake` workers go to the test of the wait, `asleep` ones sleep in it, and `running` ones are in a
-- task. `notices` counts the callers of `enqueue` that have pushed and not notified yet. Of the
-- callers of `stop`, `halting` have read `stop_` as false and `halted` have stored it and not
-- notified yet.
pub record Waits : Type 0 where
  pub world : World
  pub awake : ℕ
  pub asleep : ℕ
  pub running : ℕ
  pub notices : ℕ
  pub halting : ℕ
  pub halted : ℕ

abbrev pub start : ℕ → Waits
start workers = record {
  world = ThreadPool.start workers;
  awake = workers;
  asleep = 0;
  running = 0;
  notices = 0;
  halting = 0;
  halted = 0;
}

-- `notify_one` wakes a worker, if one sleeps.
abbrev pub notify_one : Waits → Waits
notify_one s = elim s.asleep [ zero ↦ s | suc n ↦ record s { awake = suc s.awake; asleep = n } ]

abbrev pub notify_all : Waits → Waits
notify_all s = record s { awake = s.awake + s.asleep; asleep = 0 }

pub data Step : Waits → Waits → Type 0 where
  pass :
      (s : Waits) (task : ℕ)
      → s.world.pool.stop ≡ false
      → Step s (record s { world = record (s.world) { passed = task ∷ s.world.passed } })
  enqueue :
      (s : Waits) (task : ℕ)
      → 0 < count task s.world.passed
      → Step s (record s {
        world = record (s.world) {
          pool = push s.world.pool task;
          passed = without task s.world.passed;
          pushed = s.world.pushed ++ task ∷ [];
        };
        notices = suc s.notices;
      })
  notice : (s : Waits) (n : ℕ) → s.notices ≡ suc n → Step s (notify_one (record s { notices = n }))
  sleep :
      (s : Waits) (n : ℕ)
      → s.awake ≡ suc n
      → worker_ready s.world.pool ≡ false
      → Step s (record s { awake = n; asleep = suc s.asleep })
  wake_up :
      (s : Waits) (n : ℕ) → s.asleep ≡ suc n → Step s (record s { awake = suc s.awake; asleep = n })
  work :
      (s : Waits) (n task : ℕ) (p : SimpleThreadPool)
      → s.awake ≡ suc n
      → worker_ready s.world.pool ≡ true
      → worker_turn s.world.pool ≡ run_task task p
      → Step s (record s {
        world = record (s.world) { pool = p; started = s.world.started ++ task ∷ [] };
        awake = n;
        running = suc s.running;
      })
  task_done :
      (s : Waits) (n : ℕ)
      → s.running ≡ suc n
      → Step s (record s { awake = suc s.awake; running = n })
  leave :
      (s : Waits) (n left : ℕ)
      → s.awake ≡ suc n
      → s.world.live ≡ suc left
      → worker_ready s.world.pool ≡ true
      → worker_turn s.world.pool ≡ exit
      → Step s (record s { world = record (s.world) { live = left }; awake = n })
  halt_pass :
      (s : Waits) → s.world.pool.stop ≡ false → Step s (record s { halting = suc s.halting })
  halt :
      (s : Waits) (n : ℕ)
      → s.halting ≡ suc n
      → Step s (record s {
        world = record (s.world) { pool = record (s.world.pool) { stop = true } };
        halting = n;
        halted = suc s.halted;
      })
  notice_all :
      (s : Waits) (n : ℕ) → s.halted ≡ suc n → Step s (notify_all (record s { halted = n }))

pub data Run (first : Waits) : Waits → Type 0 where
  here : Run first first
  next : {s s' : Waits} → Run first s → Step s s' → Run first s'
