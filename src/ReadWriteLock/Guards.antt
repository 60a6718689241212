-- ===== src/ReadWriteLock/Guards.antt =====
-- ReadLockGuard and WriteLockGuard of include/utils/threading.h: nested scopes of one thread, in each
-- of which a guard stands. `none` is a constructor that has to wait.
use packet_classifier.Prelude.{
  ℕ, suc, Option-cases, ◌≡◌, ◌∙◌, refl, sym, ap, inl, inr, true, false, List, [], ◌∷◌, Option, none,
  some, arith, Bool-cases, if◌then◌else◌, ◌>>=◌, ◌==◌, ◌⊎◌,
}
use packet_classifier.Prelude.Int.{ℤ, pos, negsuc, suc_ℤ, pred_ℤ, ◌==ℤ◌}
use packet_classifier.ReadWriteLock.{
  ReadWriteLock, is_thread, read_ready, read_locked, read_unlock, write_enter, write_ready,
  write_locked, write_unlock,
}

unfoldable pub read_lock_guard : ReadWriteLock → Option ReadWriteLock
read_lock_guard l = if read_ready l then some (read_locked l) else none

unfoldable pub write_lock_guard : ℕ → ReadWriteLock → Option ReadWriteLock
unfolding write_enter
write_lock_guard t l =
    let (entered, again) = write_enter t l in
    if again
    then some entered
    else if write_ready entered
    then some (write_locked t entered)
    else none

abbrev pub destroy_read_lock_guard : ReadWriteLock → ReadWriteLock
destroy_read_lock_guard l = read_unlock l

abbrev pub destroy_write_lock_guard : ℕ → ReadWriteLock → ReadWriteLock
destroy_write_lock_guard t l = write_unlock t l

pub data Guard : Type 0 where
  reads writes : Guard

abbrev pub enter : ℕ → Guard → ReadWriteLock → Option ReadWriteLock
enter t reads l = read_lock_guard l
enter t writes l = write_lock_guard t l

abbrev pub leave : ℕ → Guard → ReadWriteLock → ReadWriteLock
leave t reads l = destroy_read_lock_guard l
leave t writes l = destroy_write_lock_guard t l

-- The scopes from the outermost one on, and their ends from the innermost one on.
unfoldable pub enter_all : ℕ → List Guard → ReadWriteLock → Option ReadWriteLock
enter_all t [] l = some l
enter_all t (g ∷ gs) l = do entered ← enter t g l; enter_all t gs entered

unfoldable pub leave_all : ℕ → List Guard → ReadWriteLock → ReadWriteLock
leave_all t [] l = l
leave_all t (g ∷ gs) l = leave t g (leave_all t gs l)

-- Without a writer there is no id and no count; with one the count is positive.
pub record IsSettled (l : ReadWriteLock) : Type 0 where
  pub idle :
      l.writer_active ≡ false → (l.writer_thread_id ≡ none) × (l.recursive_write_count ≡ pos 0)
  pub busy : l.writer_active ≡ true → (n : ℕ) × (l.recursive_write_count ≡ pos (suc n))

pred-suc : (z : ℤ) → pred_ℤ (suc_ℤ z) ≡ z
pred-suc (pos n) = ground arith
pred-suc (negsuc n) = ground arith

some-eq : (l l' : ReadWriteLock) → some l ≡ some l' → l ≡ l'
some-eq l l' e = cc

leave-reads :
    (t : ℕ) (l l' : ReadWriteLock)
    → IsSettled l
    → enter t reads l ≡ some l'
    → (leave t reads l' ≡ l) × IsSettled l'
unfolding read_lock_guard
leave-reads t l l' s e = elim (Bool-cases (read_ready l)) [
  | inr unready ↦ absurd (let no = rw (read_lock_guard, unready) at e in cc)
  | inl ready ↦
      let same : read_locked l ≡ l' = some-eq _ _ (rw (read_lock_guard, ready) at e) in
      rw (← same) (
        ap (λ z. record l { active_readers = z }) (pred-suc l.active_readers),
        record { idle = s.idle; busy = s.busy },
      )
]

-- The recursive call, or the wait.
enter-writes :
    (t : ℕ) (l l' : ReadWriteLock)
    → enter t writes l ≡ some l'
    → ((l.writer_active ≡ true)
        × (is_thread l.writer_thread_id t ≡ true)
        × (record l { recursive_write_count = suc_ℤ l.recursive_write_count } ≡ l'))
      ⊎ ((l.writer_active ≡ false)
          × (write_locked t (record l { waiting_writers = suc_ℤ l.waiting_writers }) ≡ l'))
unfolding write_lock_guard write_enter write_ready
enter-writes t l l' e = ground arith

leave-writes :
    (t : ℕ) (l l' : ReadWriteLock)
    → IsSettled l
    → enter t writes l ≡ some l'
    → (leave t writes l' ≡ l) × IsSettled l'
unfolding write_unlock
leave-writes t l l' s e = elim (enter-writes t l l' e) [
  | inl (active, own, same) ↦
      let (n, positive) = s.busy active in
      let back = pred-suc l.recursive_write_count in
      let nonzero : (pred_ℤ (suc_ℤ l.recursive_write_count) ==ℤ pos 0) ≡ false =
        rw (back, positive) (ground arith) in
      let more : suc_ℤ (pos (suc n)) ≡ pos (suc (suc n)) = ground arith in
      rw (← same) (
        rw (write_unlock, active, own, nonzero)
            (ap (λ z. record l { writer_active = true; recursive_write_count = z }) back),
        record { idle = λ free. absurd cc; busy = λ on. (suc n, ap suc_ℤ positive ∙ more) },
      )
  | inr (free, same) ↦
      let (no_thread, no_count) = s.idle free in
      let back = pred-suc l.waiting_writers in
      let self : (t == t) ≡ true = ground arith in
      rw (← same) (
        rw (write_unlock, self)
            (λ i. record {
              active_readers = l.active_readers;
              waiting_writers = back i;
              writer_active = sym free i;
              writer_thread_id = sym no_thread i;
              recursive_write_count = sym no_count i;
            }),
        record { idle = λ off. absurd cc; busy = λ on. (0, refl) },
      )
]

leave-enter :
    (t : ℕ) (g : Guard) (l l' : ReadWriteLock)
    → IsSettled l
    → enter t g l ≡ some l'
    → (leave t g l' ≡ l) × IsSettled l'
leave-enter t reads l l' s e = leave-reads t l l' s e
leave-enter t writes l l' s e = leave-writes t l l' s e

-- A thread that opens guards in nested scopes, without having to wait, and leaves the scopes leaves
-- the lock as it was, whether it is free or held at first.
pub leave_all-enter_all :
    (t : ℕ) (gs : List Guard) (l l' : ReadWriteLock)
    → IsSettled l
    → enter_all t gs l ≡ some l'
    → leave_all t gs l' ≡ l
unfolding enter_all leave_all
leave_all-enter_all t [] l l' s e = cc
leave_all-enter_all t (g ∷ gs) l l' s e = elim (Option-cases (enter t g l)) [
  | inl waits ↦ absurd (let no = rw (enter_all, waits) at e in cc)
  | inr (entered, does) ↦
      let (back, s') = leave-enter t g l entered s does in
      ap (leave t g) (leave_all-enter_all t gs entered l' s' (rw (enter_all, does) at e)) ∙ back
]
