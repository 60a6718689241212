-- ===== src/ConcurrentHash/Inserts/Ends.antt =====
-- A call of `insert` ends after so many moves of its thread, whatever the others do.
use packet_classifier.Prelude.{
  ℕ, ◌+◌, ◌-◌, ◌*◌, ◌≤◌, ◌<◌, ◌≡◌, refl, ◌∙◌, ◌⊎◌, inl, inr, true, List, [], ◌∷◌, ◌==◌,
  if◌then◌else◌, length, length-set, arith, Bool-cases,
}
use packet_classifier.Prelude.Int.{ℤ}
use packet_classifier.Prelude.Bags.{count}
use packet_classifier.Text.{Str}
use packet_classifier.ConcurrentHash.{TableEntry, slot}
use packet_classifier.ConcurrentHash.Inserts.{
  Place, probing, occupied, claimed, keyed, stored, matched, done, full, World, move, thread, step,
  run,
}
use packet_classifier.ConcurrentHash.Inserts.Steps.{thread-moved}

-- The moves that are left at most.
abbrev pub rounds : Place → ℕ
rounds (probing is) = 2 * length is + 4
rounds (occupied i is) = 2 * length is + 5
rounds (claimed i) = 3
rounds (keyed i) = 2
rounds (stored i) = 1
rounds (matched i) = 1
rounds (done i) = 0
rounds full = 0

move-rounds :
    (es : List TableEntry) (key : Str) (value : ℤ) (p : Place)
    → (rounds (move es key value p).next < rounds p)
      ⊎ ((rounds p ≡ 0) × ((move es key value p).next ≡ p))
unfolding move
move-rounds es key value (probing []) = inl (omega arith)
move-rounds es key value (probing (i ∷ is)) = inl (ground arith)
move-rounds es key value (occupied i is) = inl (ground arith)
move-rounds es key value (claimed i) = inl (omega arith)
move-rounds es key value (keyed i) = inl (omega arith)
move-rounds es key value (stored i) = inl (omega arith)
move-rounds es key value (matched i) = inl (omega arith)
move-rounds es key value (done i) = inr (refl, refl)
move-rounds es key value full = inr (refl, refl)

move-full :
    (es : List TableEntry) (key : Str) (value : ℤ) (p : Place)
    → p ≡ full
    → (move es key value p).next ≡ full
unfolding move
move-full es key value p e = rw e refl

module _ (w : World) (n m : ℕ) where
  abbrev next_of : Place
  next_of =
      (move w.entries (thread w.threads n).key (thread w.threads n).value
        (thread w.threads n).place).next

  thread-step :
      thread (step w n).threads m
      ≡ (if n == m then record (thread w.threads n) { place = next_of } else thread w.threads m)
  unfolding step
  thread-step = thread-moved w n m w.entries next_of w.current_size (
      move-full w.entries (thread w.threads n).key (thread w.threads n).value
        (thread w.threads n).place)

  pub step_text :
      ((thread (step w n).threads m).key ≡ (thread w.threads m).key)
      × ((thread (step w n).threads m).value ≡ (thread w.threads m).value)
  step_text = ground (arith, thread-step)

  step_place :
      (thread (step w n).threads m).place ≡ (if n == m then next_of else (thread w.threads m).place)
  step_place = ground (arith, thread-step)

  step-rounds :
      rounds (thread (step w n).threads m).place
      ≤ rounds (thread w.threads m).place - (if n == m then 1 else 0)
  step-rounds = elim (Bool-cases (n == m)) [
    | inr other ↦ rw (step_place, other) (omega arith)
    | inl here ↦
        let same : n ≡ m = ground arith in
        let less =
          move-rounds w.entries (thread w.threads n).key (thread w.threads n).value
            (thread w.threads n).place in
        rw (step_place, here, ← same)
          (elim less [ inl fewer ↦ omega arith | inr (none_left, stays) ↦ rw stays (omega arith) ])
  ]

run-rounds :
    (w : World) (ns : List ℕ) (m : ℕ)
    → rounds (thread (run w ns).threads m).place ≤ rounds (thread w.threads m).place - count m ns
unfolding run
run-rounds w [] m = omega arith
run-rounds w (n ∷ ns) m = ground (arith, run-rounds (step w n) ns m, step-rounds w n m)

-- The call is at its end.
abbrev pub IsEnded : Place → Type 0
IsEnded (done i) = Unit {0}
IsEnded full = Unit {0}
IsEnded p = ⊥

ended : (p : Place) → rounds p ≡ 0 → IsEnded p
ended (done i) h = tt
ended full h = tt
ended (probing is) h = absurd (omega arith)
ended (occupied i is) h = absurd (omega arith)
ended (claimed i) h = absurd (omega arith)
ended (keyed i) h = absurd (omega arith)
ended (stored i) h = absurd (omega arith)
ended (matched i) h = absurd (omega arith)

pub run-IsEnded :
    (w : World) (ns : List ℕ) (m : ℕ)
    → rounds (thread w.threads m).place ≤ count m ns
    → IsEnded (thread (run w ns).threads m).place
run-IsEnded w ns m h = ended _ (let k = run-rounds w ns m in omega arith)

pub run_text :
    (w : World) (ns : List ℕ) (m : ℕ)
    → ((thread (run w ns).threads m).key ≡ (thread w.threads m).key)
      × ((thread (run w ns).threads m).value ≡ (thread w.threads m).value)
unfolding run
run_text w [] m = (refl, refl)
run_text w (n ∷ ns) m =
    let (k, v) = run_text (step w n) ns m in let (k', v') = step_text w n m in (k ∙ k', v ∙ v')

move-length :
    (es : List TableEntry) (key : Str) (value : ℤ) (p : Place)
    → length (move es key value p).entries ≡ length es
unfolding move
move-length es key value (probing []) = refl
move-length es key value (probing (i ∷ is)) =
    ground (arith, length-set es i (record (slot es i) { in_use = true }))
move-length es key value (occupied i is) = refl
move-length es key value (claimed i) = length-set es i _
move-length es key value (keyed i) = length-set es i _
move-length es key value (stored i) = refl
move-length es key value (matched i) = length-set es i _
move-length es key value (done i) = refl
move-length es key value full = refl

step-length : (w : World) (n : ℕ) → length (step w n).entries ≡ length w.entries
unfolding step
step-length w n = move-length w.entries _ _ _

pub run-length : (w : World) (ns : List ℕ) → length (run w ns).entries ≡ length w.entries
unfolding run
run-length w [] = refl
run-length w (n ∷ ns) = run-length (step w n) ns ∙ step-length w n
