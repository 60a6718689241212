-- ===== src/Threading/ThreadPool/Progress.antt =====
-- The workers of `SimpleThreadPool` in src/utils/threading.cpp get through their tasks.
use mathlib.Core.List.{append-nil}
use packet_classifier.Prelude.{
  ℕ, zero, suc, ◌+◌, ◌*◌, ◌≤◌, ◌<◌, ◌≡◌, ◌∙◌, ◌⊎◌, refl, sym, ap, inl, inr, true, [], ◌∷◌, arith,
  length, Bool-cases, List,
}
use packet_classifier.Threading.ThreadPool.{
  SimpleThreadPool, worker_ready, worker_turn, run_task, exit,
}
use packet_classifier.Threading.ThreadPool.Order.{turn_first, turn_exit, Run-IsOrderly}
use packet_classifier.Threading.ThreadPool.Waits.{Waits, start, Step, Run, notify_one}
use packet_classifier.Threading.ThreadPool.Projection.{Run-World}
use packet_classifier.Threading.ThreadPool.Wakeups.{IsServed, Run-IsServed}

-- A notification that is due is made, a worker takes a task, ends one, or leaves.
abbrev pub GoesOn : {s s' : Waits} → Step s s' → Type 0
GoesOn (Step.notice s n h) = Unit {0}
GoesOn (Step.notice_all s n h) = Unit {0}
GoesOn (Step.work s n task p h ready turn) = Unit {0}
GoesOn (Step.task_done s n h) = Unit {0}
GoesOn (Step.leave s n left h some_live ready turn) = Unit {0}
GoesOn t = ⊥

-- Steps of this kind, as many as the number says.
pub data Onward (first : Waits) : ℕ → Waits → Type 0 where
  here : Onward first 0 first
  next :
      {n : ℕ} {s s' : Waits}
      → Onward first n s
      → (t : Step s s') → GoesOn t
      → Onward first (suc n) s'

-- How many there can be.
abbrev pub pending : Waits → ℕ
pending s = s.notices + s.halted + s.running + s.world.live + 2 * length s.world.pool.tasks

-- Some worker can run what is in the queue.
abbrev pub IsManned : Waits → Type 0
IsManned s = (0 < s.world.live) ⊎ (length s.world.pool.tasks ≡ 0)

-- Every task that was pushed has been started, and a pool that is stopped has no worker left.
pub record IsDone (s : Waits) : Type 0 where
  pub all_started : s.world.started ≡ s.world.pushed
  pub all_ended : s.running ≡ 0
  pub all_left : s.world.pool.stop ≡ true → s.world.live ≡ 0

Step-pending :
    {s s' : Waits} (t : Step s s')
    → GoesOn t
    → IsServed s
    → IsManned s
    → (suc (pending s') ≤ pending s) × IsManned s'
Step-pending (Step.notice s n h) g i m = notified s n s.asleep refl h m
  where
    notified :
        (s : Waits) (n asleep : ℕ)
        → s.asleep ≡ asleep
        → s.notices ≡ suc n
        → IsManned s
        → let s' = notify_one (record s { notices = n }) in
          (suc (pending s') ≤ pending s) × IsManned s'
    notified s n zero e h m = rw e (omega arith, m)
    notified s n (suc k) e h m = rw e (omega arith, m)
Step-pending (Step.notice_all s n h) g i m = (omega arith, m)
Step-pending (Step.work s n task p h ready turn) g i m =
    let (first, same) = turn_first s.world.pool p task turn in
    let c = i.workers in
    let shorter : length s.world.pool.tasks ≡ suc (length p.tasks) = rw first refl in
    (omega arith, inl (omega arith))
Step-pending (Step.task_done s n h) g i m = (omega arith, m)
Step-pending (Step.leave s n left h some_live ready turn) g i m =
    let (stopped, none_left) = turn_exit s.world.pool turn in (omega arith, inr (rw none_left refl))
Step-pending _ g i m = absurd g

empty : (ts : List ℕ) → length ts ≡ 0 → ts ≡ []
empty [] h = refl
empty (t ∷ ts) h = absurd (omega arith)

ℕ-cases : (n : ℕ) → (n ≡ 0) ⊎ ((m : ℕ) × (n ≡ suc m))
ℕ-cases zero = inl refl
ℕ-cases (suc m) = inr (m, refl)

-- What an awake worker does where there is a task.
takes :
    (p : SimpleThreadPool)
    → 0 < length p.tasks
    → (task : ℕ) × (p' : SimpleThreadPool) × (worker_ready p ≡ true)
      × (worker_turn p ≡ run_task task p')
unfolding worker_turn
takes p h = of_tasks p.tasks refl
  where
    of_tasks :
        (ts : List ℕ)
        → p.tasks ≡ ts
        → (task : ℕ) × (p' : SimpleThreadPool) × (worker_ready p ≡ true)
          × (worker_turn p ≡ run_task task p')
    of_tasks [] e = absurd (let z = ap length e in omega arith)
    of_tasks (task ∷ rest) e = (task, record p { tasks = rest }, ground arith, ground arith)

exits :
    (p : SimpleThreadPool)
    → p.stop ≡ true
    → length p.tasks ≡ 0
    → (worker_ready p ≡ true) × (worker_turn p ≡ exit)
unfolding worker_turn
exits p on none_left = (ground arith, ground arith)

predecessor : (n : ℕ) → 0 < n → (m : ℕ) × (n ≡ suc m)
predecessor zero h = absurd (omega arith)
predecessor (suc m) h = (m, refl)

-- Nothing is due but to leave.
ended :
    (workers : ℕ) (s : Waits)
    → Run (start workers) s
    → s.halted ≡ 0
    → s.running ≡ 0
    → length s.world.pool.tasks ≡ 0
    → IsDone s ⊎ ((s' : Waits) × (t : Step s s') × GoesOn t)
ended workers s r none_halted none_running no_task =
    let i = Run-IsServed workers r in
    let o = Run-IsOrderly workers (Run-World workers r) in
    let c = i.workers in
    let all : s.world.started ≡ s.world.pushed =
      sym (o.order ∙ rw (empty s.world.pool.tasks no_task) (append-nil s.world.started)) in
    elim (Bool-cases s.world.pool.stop) [
      | inl on ↦ elim (ℕ-cases s.awake) [
        | inl none_awake ↦ inl (record {
          all_started = all;
          all_ended = none_running;
          all_left = λ st. ground (arith, i.stop on);
        })
        | inr (n, awake) ↦
            let (ready, turn) = exits s.world.pool on no_task in
            let (left, live) = predecessor s.world.live (omega arith) in
            inr (_, Step.leave s n left awake live ready turn, tt)
      ]
      | inr off ↦
          inl (record { all_started = all; all_ended = none_running; all_left = λ st. absurd cc })
    ]

goes_on :
    (workers : ℕ) (s : Waits)
    → Run (start workers) s
    → IsManned s
    → IsDone s ⊎ ((s' : Waits) × (t : Step s s') × GoesOn t)
goes_on workers s r m =
    let i = Run-IsServed workers r in
    let c = i.workers in
    elim (ℕ-cases s.notices) [
      | inr (n, some_notice) ↦ inr (_, Step.notice s n some_notice, tt)
      | inl no_notice ↦ elim (ℕ-cases s.halted) [
        | inr (n, some_halted) ↦ inr (_, Step.notice_all s n some_halted, tt)
        | inl none_halted ↦ elim (ℕ-cases s.running) [
          | inr (n, some_running) ↦ inr (_, Step.task_done s n some_running, tt)
          | inl none_running ↦ elim (ℕ-cases (length s.world.pool.tasks)) [
            | inr (n, some_task) ↦
                let (task, p, ready, turn) = takes s.world.pool (omega arith) in
                let some_awake : 0 < s.awake = ground (arith, i.tasks, m) in
                let (k, awake) = predecessor s.awake some_awake in
                inr (_, Step.work s k task p awake ready turn, tt)
            | inl no_task ↦ ended workers s r none_halted none_running no_task
          ]
        ]
      ]
    ]

onward :
    (workers : ℕ) {s s' : Waits} {n : ℕ}
    → Run (start workers) s
    → IsManned s
    → Onward s n s'
    → Run (start workers) s' × IsManned s' × (n + pending s' ≤ pending s)
onward workers r m here = (r, m, omega arith)
onward workers r m (next o t g) =
    let (r', m', bound) = onward workers r m o in
    let (less, m'') = Step-pending t g (Run-IsServed workers r') m' in
    (Run.next r' t, m'', omega arith)

-- No wake-up is lost. Whatever callers and workers have done, unless tasks are left with no worker,
-- at most `pending s` steps follow one another in which a due notification is made or a worker takes
-- a task, ends one or leaves; and after any of them there is a next one, or every task that was
-- pushed has been started and has ended and, if the pool is stopped, every worker has left.
pub Run-IsDone :
    (workers : ℕ) {s : Waits}
    → Run (start workers) s
    → IsManned s
    → (n : ℕ) (s' : Waits) → Onward s n s'
    → (n ≤ pending s) × (IsDone s' ⊎ ((s'' : Waits) × (t : Step s' s'') × GoesOn t))
Run-IsDone workers r m n s' o =
    let (r', m', bound) = onward workers r m o in (omega arith, goes_on workers s' r' m')
