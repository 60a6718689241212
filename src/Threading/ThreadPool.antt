-- ===== src/Threading/ThreadPool.antt =====
-- `SimpleThreadPool`. A task is a number. The critical sections of the workers and of the callers are
-- functions on the state; `enqueue` reads `stop_` before it takes the mutex, so it is two steps.
pub mod Order
pub mod Late
pub mod Waits
pub mod Wakeups
pub mod Projection
pub mod Progress
use packet_classifier.Prelude.{
  ℕ, suc, ◌<◌, ◌≡◌, Bool, true, false, ◌&&◌, ◌||◌, not, List, [], ◌∷◌, ◌++◌, ◌==◌, if◌then◌else◌,
}
use packet_classifier.Prelude.Bags.{count, without}

pub record SimpleThreadPool : Type 0 where
  pub tasks : List ℕ
  pub stop : Bool

-- `hardware_concurrency` is the answer of the standard library.
unfoldable pub threads_to_create : ℕ → ℕ → ℕ
threads_to_create num_threads hardware_concurrency =
    let n = if num_threads == 0 then hardware_concurrency else num_threads in
    if n == 0 then 1 else n

abbrev pub push : SimpleThreadPool → ℕ → SimpleThreadPool
push p task = record p { tasks = p.tasks ++ task ∷ [] }

abbrev pub is_empty : List ℕ → Bool
is_empty [] = true
is_empty (t ∷ ts) = false

-- What a worker waits for.
abbrev pub worker_ready : SimpleThreadPool → Bool
worker_ready p = p.stop || not (is_empty p.tasks)

pub data Turn : Type 0 where
  exit : Turn
  no_task : Turn
  run_task : ℕ → SimpleThreadPool → Turn

-- What it does then.
unfoldable pub worker_turn : SimpleThreadPool → Turn
worker_turn p =
    if p.stop && is_empty p.tasks
    then exit
    else elim p.tasks [ [] ↦ no_task | task ∷ rest ↦ run_task task (record p { tasks = rest }) ]

-- The store of `stop`, which the first call reaches alone.
unfoldable pub set_stop : SimpleThreadPool → SimpleThreadPool
set_stop p = if p.stop then p else record p { stop = true }

-- The pool with its threads: `passed` are the tasks whose callers have read `stop_` as false and not
-- pushed yet, `pushed` and `started` the tasks that were pushed and started so far, in order, and
-- `live` the number of the workers that have not returned.
pub record World : Type 0 where
  pub pool : SimpleThreadPool
  pub passed : List ℕ
  pub pushed : List ℕ
  pub started : List ℕ
  pub live : ℕ

abbrev pub start : ℕ → World
start workers = record {
  pool = record { tasks = []; stop = false };
  passed = [];
  pushed = [];
  started = [];
  live = workers;
}

pub data Step : World → World → Type 0 where
  pass :
      (w : World) (task : ℕ) → w.pool.stop ≡ false → Step w (record w { passed = task ∷ w.passed })
  enqueue :
      (w : World) (task : ℕ)
      → 0 < count task w.passed
      → Step w (record w {
        pool = push w.pool task;
        passed = without task w.passed;
        pushed = w.pushed ++ task ∷ [];
      })
  work :
      (w : World) (task : ℕ) (p : SimpleThreadPool)
      → 0 < w.live
      → worker_ready w.pool ≡ true
      → worker_turn w.pool ≡ run_task task p
      → Step w (record w { pool = p; started = w.started ++ task ∷ [] })
  leave :
      (w : World) (left : ℕ)
      → w.live ≡ suc left
      → worker_ready w.pool ≡ true
      → worker_turn w.pool ≡ exit
      → Step w (record w { live = left })
  stop_all : (w : World) → Step w (record w { pool = set_stop w.pool })

pub data Run (first : World) : World → Type 0 where
  here : Run first first
  next : {w w' : World} → Run first w → Step w w' → Run first w'
