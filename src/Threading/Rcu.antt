-- ===== src/Threading/Rcu.antt =====
-- The deferred callbacks of RCU. A callback is a number, and `queued_by` is the parameter that gives
-- the callbacks which it passes to `callRcu` itself. An exception of a callback is caught, so the
-- next one runs all the same.
pub mod Deferred
use packet_classifier.Prelude.{ℕ, ◌+◌, ◌%◌, ◌^◌, List, [], ◌∷◌, ◌++◌, Option, none, some}

-- `ran` is the log of the callbacks that have run.
pub record Rcu : Type 0 where
  pub rcu_global_epoch : ℕ
  pub deferred_callbacks : List ℕ
  pub ran : List ℕ

abbrev pub new : Rcu
new = record { rcu_global_epoch = 1; deferred_callbacks = []; ran = [] }

-- `rcuReadLock`: the epoch that the thread stores.
abbrev pub rcu_read_lock : Rcu → ℕ
rcu_read_lock s = s.rcu_global_epoch

-- It does nothing.
abbrev pub rcu_read_unlock : Rcu → Rcu
rcu_read_unlock s = s

-- An empty std::function is `none`.
unfoldable pub call_rcu : Rcu → Option ℕ → Rcu
call_rcu s none = s
call_rcu s (some callback) = record s { deferred_callbacks = s.deferred_callbacks ++ callback ∷ [] }

module _ (queued_by : ℕ → List ℕ) where
  unfoldable pub call_all : Rcu → List ℕ → Rcu
  unfolding call_rcu
  call_all s [] = s
  call_all s (c ∷ cs) = call_all (call_rcu s (some c)) cs

  -- The loop over `callbacks_to_run`.
  unfoldable pub run_callbacks : Rcu → List ℕ → Rcu
  unfolding call_all
  run_callbacks s [] = s
  run_callbacks s (c ∷ cs) =
      run_callbacks (call_all (record s { ran = s.ran ++ c ∷ [] }) (queued_by c)) cs

  unfoldable pub process_rcu_callbacks : Rcu → Rcu
  unfolding run_callbacks
  process_rcu_callbacks s = elim s.deferred_callbacks [
    | [] ↦ s
    | c ∷ cs ↦ run_callbacks (record s { deferred_callbacks = [] }) (c ∷ cs)
  ]

  -- The waits are yields and a sleep: they change nothing.
  unfoldable pub synchronize_rcu : Rcu → Rcu
  unfolding process_rcu_callbacks
  synchronize_rcu s =
      process_rcu_callbacks (record s { rcu_global_epoch = (s.rcu_global_epoch + 1) % 2 ^ 64 })
