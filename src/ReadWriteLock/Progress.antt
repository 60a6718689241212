-- ===== src/ReadWriteLock/Progress.antt =====
-- The threads that wait for a `ReadWriteLock` can go on.
use packet_classifier.Prelude.{ℕ, zero, suc, ◌<◌, ◌≡◌, inl, inr, none, arith}
use packet_classifier.ReadWriteLock.Invariant.{Run-IsValid}
use packet_classifier.ReadWriteLock.Fields.{idle-IsValid}
use packet_classifier.ReadWriteLock.Waits.{Waits, start, Run}
use packet_classifier.ReadWriteLock.Wakeups.{Run-IsServed}
use packet_classifier.ReadWriteLock.Onward.{IsDrained, HoldersRun, Draining, Onward, load, advance}

Onward-trans : {a b c : Waits} → Onward a b → Onward b c → Onward a c
Onward-trans r Onward.here = r
Onward-trans r (Onward.next q t g) = Onward.next (Onward-trans r q) t g

drain :
    (n : ℕ) (s : Waits)
    → Run start s
    → Draining s
    → load s < n
    → (s' : Waits) × Onward s s' × IsDrained s'
drain zero s r e h = absurd (omega arith)
drain (suc n) s r e h =
    let (before, i) = Run-IsServed r in
    elim (advance s e (Run-IsValid before idle-IsValid) i) [
      | inl done ↦ (s, Onward.here, done)
      | inr (s', t, g, e', less) ↦
          let (s'', q, done) = drain n s' (Run.next r t) e' (omega arith) in
          (s'', Onward-trans (Onward.next Onward.here t g) q, done)
    ]

-- Whatever readers and writers have done, no wake-up is lost: unless `tryWriteLock` has let a thread
-- in, or a thread that holds the lock waits for it, the threads that hold the lock or wait for it can
-- go on, by releases of threads that do not wait and by woken threads that find it free alone, until
-- nobody holds it or waits and it lets in readers and writers.
pub Run-IsDrained :
    (s : Waits)
    → Run start s
    → s.world.tried ≡ none
    → HoldersRun s
    → (s' : Waits) × Onward s s' × IsDrained s'
Run-IsDrained s r e runs = drain (suc (load s)) s r (e, runs) (omega arith)
