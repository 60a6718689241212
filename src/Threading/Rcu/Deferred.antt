-- ===== src/Threading/Rcu/Deferred.antt =====
-- The order of the deferred callbacks in src/utils/threading.cpp.
use mathlib.Core.List.{append_assoc, append-nil}
use packet_classifier.Prelude.{ℕ, ◌+◌, ◌%◌, ◌^◌, ◌≡◌, refl, ◌∙◌, sym, ap, List, [], ◌∷◌, ◌++◌, some}
use packet_classifier.Threading.Rcu.{
  Rcu, call_rcu, call_all, run_callbacks, process_rcu_callbacks, synchronize_rcu,
}

module _ (queued_by : ℕ → List ℕ) where
  -- What the callbacks queue, in their order.
  abbrev pub queued_by_all : List ℕ → List ℕ
  queued_by_all [] = []
  queued_by_all (c ∷ cs) = queued_by c ++ queued_by_all cs

  call_all_lem :
      (s : Rcu) (cs : List ℕ)
      → ((call_all queued_by s cs).ran ≡ s.ran)
        × ((call_all queued_by s cs).deferred_callbacks ≡ s.deferred_callbacks ++ cs)
        × ((call_all queued_by s cs).rcu_global_epoch ≡ s.rcu_global_epoch)
  unfolding call_all call_rcu
  call_all_lem s [] = (refl, sym (append-nil _), refl)
  call_all_lem s (c ∷ cs) =
      let rest = call_all_lem (call_rcu s (some c)) cs in
      (rest.0, rest.1 ∙ append_assoc s.deferred_callbacks (c ∷ []) cs, rest.2)

  run_callbacks_lem :
      (s : Rcu) (cs : List ℕ)
      → ((run_callbacks queued_by s cs).ran ≡ s.ran ++ cs)
        × ((run_callbacks queued_by s cs).deferred_callbacks
            ≡ s.deferred_callbacks ++ queued_by_all cs)
        × ((run_callbacks queued_by s cs).rcu_global_epoch ≡ s.rcu_global_epoch)
  unfolding run_callbacks
  run_callbacks_lem s [] = (sym (append-nil _), sym (append-nil _), refl)
  run_callbacks_lem s (c ∷ cs) =
      let before : Rcu = record s { ran = s.ran ++ c ∷ [] } in
      let queued = call_all_lem before (queued_by c) in
      let rest = run_callbacks_lem (call_all queued_by before (queued_by c)) cs in
      (
        rest.0 ∙ ap (λ xs. xs ++ cs) queued.0 ∙ append_assoc s.ran (c ∷ []) cs,
        rest.1
            ∙ ap (λ xs. xs ++ queued_by_all cs) queued.1
            ∙ append_assoc s.deferred_callbacks (queued_by c) (queued_by_all cs),
        rest.2 ∙ queued.2,
      )

  -- Without pending callbacks nothing is run.
  process-run :
      (epoch : ℕ) (ran pending : List ℕ)
      → process_rcu_callbacks queued_by
          (record { rcu_global_epoch = epoch; deferred_callbacks = pending; ran = ran })
        ≡ run_callbacks queued_by
            (record { rcu_global_epoch = epoch; deferred_callbacks = []; ran = ran })
            pending
  unfolding process_rcu_callbacks run_callbacks
  process-run epoch ran [] = refl
  process-run epoch ran (c ∷ cs) = refl

  -- A grace period runs each pending callback once, in the order of the calls, and leaves pending
  -- what these callbacks have queued, in their order; the epoch grows by one, modulo 2 ^ 64.
  pub synchronize_rcu_lem :
      (s : Rcu)
      → ((synchronize_rcu queued_by s).ran ≡ s.ran ++ s.deferred_callbacks)
        × ((synchronize_rcu queued_by s).deferred_callbacks ≡ queued_by_all s.deferred_callbacks)
        × ((synchronize_rcu queued_by s).rcu_global_epoch ≡ (s.rcu_global_epoch + 1) % 2 ^ 64)
  unfolding synchronize_rcu
  synchronize_rcu_lem s =
      let epoch : ℕ = (s.rcu_global_epoch + 1) % 2 ^ 64 in
      rw (process-run epoch s.ran s.deferred_callbacks) (
        run_callbacks_lem
          (record { rcu_global_epoch = epoch; deferred_callbacks = []; ran = s.ran })
          s.deferred_callbacks)
