-- ===== src/ReadWriteLock/Exclusion.antt =====
-- Readers and writers of `ReadWriteLock` at one time.
use packet_classifier.Prelude.{ℕ, ◌≡◌, ◌⊎◌, List, [], ◌∷◌, Option, none, arith, All-map, Ordered}
use packet_classifier.ReadWriteLock.Threads.{World, idle, Run}
use packet_classifier.ReadWriteLock.Invariant.{Run-IsValid}
use packet_classifier.ReadWriteLock.Fields.{IsOwner, idle-IsValid}

-- No thread reads while one writes, and all who write are one thread.
pub record IsExclusive (w : World) : Type 0 where
  pub alone : (w.readers ≡ []) ⊎ ((w.writers ≡ []) × (w.tried ≡ none))
  pub one_way : (w.writers ≡ []) ⊎ (w.tried ≡ none)
  pub one_thread : Ordered (λ t u. u ≡ t) w.writers

IsOwner-Ordered : (id : Option ℕ) (xs : List ℕ) → IsOwner id xs → Ordered (λ t u. u ≡ t) xs
IsOwner-Ordered id [] h = tt
IsOwner-Ordered id (x ∷ xs) h =
    (All-map (λ u e. let own = h.0 in ground arith) xs h.1, IsOwner-Ordered id xs h.1)

-- Whatever threads do that unlock only what they hold, no thread reads while one writes, a thread
-- that `tryWriteLock` let in included, and the recursive holds of the write lock are of one thread.
pub Run-IsExclusive : {w : World} → Run idle w → IsExclusive w
Run-IsExclusive {w = w} r =
    let v = Run-IsValid r idle-IsValid in
    record {
      alone = ground arith;
      one_way = ground arith;
      one_thread = IsOwner-Ordered w.lock.writer_thread_id w.writers v.owners;
    }
