-- ===== src/ReadWriteLock/Fields.antt =====
-- How the fields of `ReadWriteLock` in src/utils/threading.cpp stand to the threads that use it.
use packet_classifier.Prelude.{
  ℕ, ◌<◌, ◌≡◌, ◌⊎◌, inl, refl, Bool, true, false, List, [], ◌∷◌, Option, none, some, arith, length,
  All,
}
use packet_classifier.Prelude.Int.{pos}
use packet_classifier.ReadWriteLock.{is_thread}
use packet_classifier.ReadWriteLock.Threads.{World, idle}

-- No writer; writers by `writeLock`; a lock that `tryWriteLock` took.
abbrev IsFree : World → Type 0
IsFree w =
    (w.lock.writer_active ≡ false)
    × (w.lock.writer_thread_id ≡ none)
    × (w.writers ≡ [])
    × (w.tried ≡ none)

abbrev IsHeld : World → Type 0
IsHeld w =
    (w.lock.writer_active ≡ true)
    × (w.lock.recursive_write_count ≡ pos (length w.writers))
    × (0 < length w.writers)
    × (w.readers ≡ [])
    × (w.tried ≡ none)

abbrev is_some_thread : Option ℕ → Bool
is_some_thread none = false
is_some_thread (some t) = true

abbrev IsTaken : World → Type 0
IsTaken w =
    (is_some_thread w.tried ≡ true)
    × (w.lock.writer_active ≡ true)
    × (w.lock.writer_thread_id ≡ none)
    × (w.writers ≡ [])
    × (w.readers ≡ [])

abbrev pub IsOwner : Option ℕ → List ℕ → Type 0
IsOwner id = All (λ u. id ≡ some u)

pub record IsValid (w : World) : Type 0 where
  pub reading : w.lock.active_readers ≡ pos (length w.readers)
  pub queued : w.lock.waiting_writers ≡ pos (length w.waiting)
  pub mode : IsFree w ⊎ (IsHeld w ⊎ IsTaken w)
  pub owners : IsOwner w.lock.writer_thread_id w.writers

pub idle-IsValid : IsValid idle
idle-IsValid = record {
  reading = refl;
  queued = refl;
  mode = inl (refl, refl, refl, refl);
  owners = tt;
}

pub no_length : (xs : List ℕ) → length xs ≡ 0 → xs ≡ []
no_length [] h = refl
no_length (x ∷ xs) h = absurd (omega arith)

pub is_thread-eq : (id : Option ℕ) (t : ℕ) → is_thread id t ≡ true → id ≡ some t
is_thread-eq none t e = absurd cc
is_thread-eq (some u) t e = ground arith

pub IsOwner-nil : (id : Option ℕ) (xs : List ℕ) → xs ≡ [] → IsOwner id xs
IsOwner-nil id xs e = rw e tt
