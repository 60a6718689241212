-- ===== src/ConcurrentHash/Lookups/Watch.antt =====
-- What a lookup in src/data_structures/concurrent_hash.cpp knows at each step, while threads insert.
use packet_classifier.Prelude.{
  ℕ, ◌≡◌, sym, ◌∙◌, inl, inr, true, false, List, [], ◌∷◌, arith, Bool-cases,
}
use packet_classifier.Prelude.Int.{ℤ}
use packet_classifier.Text.{Str, is_empty}
use packet_classifier.ConcurrentHash.{slot}
use packet_classifier.ConcurrentHash.Inserts.{World, thread, step, run}
use packet_classifier.ConcurrentHash.Inserts.Invariant.{IsSound}
use packet_classifier.ConcurrentHash.Inserts.Moves.{step-IsSound}
use packet_classifier.ConcurrentHash.Inserts.Ends.{step_text}
use packet_classifier.ConcurrentHash.Lookups.Sights.{Shows, Shows-move, IsFilled, IsFilled-move}

-- A thread of the world inserts the value with the key.
abbrev pub Gives : World → Str → ℤ → Type 0
Gives w key value =
    (m : ℕ) × ((thread w.threads m).key ≡ key) × ((thread w.threads m).value ≡ value)

-- What holds of the threads and the entries since the start `w0`.
pub record IsWatched (w0 w : World) : Type 0 where
  pub sound : IsSound w
  pub texts :
      (m : ℕ)
      → ((thread w.threads m).key ≡ (thread w0.threads m).key)
        × ((thread w.threads m).value ≡ (thread w0.threads m).value)
  pub filled : IsFilled (Gives w0) w.entries

pub step-IsWatched : (w0 w : World) (n : ℕ) → IsWatched w0 w → IsWatched w0 (step w n)
unfolding step
step-IsWatched w0 w n v =
    let t = thread w.threads n in
    record {
      sound = step-IsSound w n v.sound;
      texts = λ m. let (k, x) = step_text w n m in let (k', x') = v.texts m in (k ∙ k', x ∙ x');
      filled =
          IsFilled-move (Gives w0) w.entries t.key t.value t.place (v.sound.agree n)
            (λ busy.
              let (k, x) = v.texts n in
              (
                (n, sym k, sym x),
                elim (v.sound.named n) [
                  | inl stuck ↦ absurd (busy stuck)
                  | inr some_key ↦ some_key
                ],
              ))
            v.filled;
    }

pub run-IsWatched : (w0 w : World) (ns : List ℕ) → IsWatched w0 w → IsWatched w0 (run w ns)
unfolding run
run-IsWatched w0 w [] v = v
run-IsWatched w0 w (n ∷ ns) v = run-IsWatched w0 (step w n) ns (step-IsWatched w0 w n v)

-- A step of a thread keeps the key of an entry.
pub Shows-step :
    (w : World) (n j : ℕ) (k : Str)
    → IsSound w
    → is_empty k ≡ false
    → Shows w.entries j k
    → Shows (step w n).entries j k
unfolding step
Shows-step w n j k s some_key shows =
    let t = thread w.threads n in
    Shows-move w.entries t.key t.value t.place j k (s.agree n) some_key shows

-- An entry with a key that is not empty is in use.
pub key_in_use :
    {w0 : World} {key : Str} (w : World) (i : ℕ)
    → is_empty key ≡ false
    → IsWatched w0 w
    → (slot w.entries i).key ≡ key
    → (slot w.entries i).in_use ≡ true
key_in_use w i some_key v its_key = elim (Bool-cases (slot w.entries i).in_use) [
  | inl on ↦ on
  | inr off ↦ absurd (let blank = v.sound.blank i off in ground arith)
]
