-- ===== src/ConcurrentHash/Inserts/Moves.antt =====
-- Each move of a thread keeps what holds of the entries and the threads.
use packet_classifier.Prelude.{
  ℕ, ◌+◌, ◌%◌, ◌^◌, ◌<◌, ◌≡◌, ◌≢◌, refl, sym, ◌⊎◌, inl, inr, true, false, List, [], ◌∷◌, ◌==◌, set,
  length, arith, Bool-cases,
}
use packet_classifier.Text.{Str, same_text, same_text-eq}
use packet_classifier.ConcurrentHash.{TableEntry, slot}
use packet_classifier.ConcurrentHash.Writes.{slot_laws, slot-set}
use packet_classifier.ConcurrentHash.Inserts.{
  Place, probing, occupied, claimed, keyed, stored, matched, done, full, World, Move, move, thread,
  step, run,
}
use packet_classifier.ConcurrentHash.Inserts.Steps.{Has, Agrees, owns, Agrees-set}
use packet_classifier.ConcurrentHash.Inserts.Invariant.{IsSound, IsFine, moved-IsSound}

-- A move that writes no entry.
still-IsFine :
    (w : World) (n : ℕ) (p : Place)
    → IsSound w
    → ((thread w.threads n).place ≡ full → p ≡ full)
    → ((i : ℕ) → owns (thread w.threads n).place i ≡ false)
    → ((i : ℕ) → owns p i ≡ false)
    → Agrees w.entries (thread w.threads n).key p
    → IsFine w n w.entries p
still-IsFine w n p s stays before after a = record {
  mine = a;
  others = λ m apart. s.agree m;
  stays = stays;
  claims = λ i mine. absurd (let e = after i in cc);
  empty = s.blank;
  writes = λ i used. inr (inl (refl, before i));
}

-- A move that writes the entry at a position.
write-IsFine :
    (w : World) (n i : ℕ) (e : TableEntry) (p : Place)
    → IsSound w
    → i < length w.entries
    → e.in_use ≡ true
    → ((thread w.threads n).place ≡ full → p ≡ full)
    → Agrees (set w.entries i e) (thread w.threads n).key p
    → ((m : ℕ)
        → m ≢ n
        → (k : Str) → Has w.entries i k
        → (thread w.threads m).place ≢ full
        → (k ≡ (thread w.threads m).key) ⊎ (owns (thread w.threads m).place i ≡ true)
        → e.key ≡ k)
    → ((j : ℕ)
        → owns p j ≡ true
        → (owns (thread w.threads n).place j ≡ true) ⊎ ((slot w.entries j).in_use ≡ false))
    → ((j : ℕ) → (i == j) ≡ false → owns (thread w.threads n).place j ≡ false)
    → (owns p i ≡ true)
      ⊎ (((thread w.threads n).key ≡ e.key) × ((thread w.threads n).value ≡ e.value))
    → IsFine w n (set w.entries i e) p
write-IsFine w n i e p s within used stays a keeps claims elsewhere source = record {
  mine = a;
  others = λ m apart.
      Agrees-set w.entries i e within (thread w.threads m).key (thread w.threads m).place
        (s.agree m) (λ k has busy why. (used, keeps m apart k has busy why));
  stays = stays;
  claims = claims;
  empty = λ j free. elim (Bool-cases (i == j)) [
    | inl here ↦ absurd (grind slot_laws)
    | inr other ↦ ground (arith, slot-set w.entries i j e within, s.blank j)
  ];
  writes = λ j used'. elim (Bool-cases (i == j)) [
    | inl here ↦
        let same : slot (set w.entries i e) j ≡ e = grind slot_laws in
        elim source [
          | inl mine ↦ inl (ground arith)
          | inr (its_key, its_value) ↦ inr (inr (rw same its_key, rw same its_value))
        ]
    | inr other ↦ inr (inl (grind slot_laws, elsewhere j other))
  ];
}

abbrev next_place : World → ℕ → Place → Move
next_place w n p = move w.entries (thread w.threads n).key (thread w.threads n).value p

abbrev Fine : World → ℕ → Place → Type 0
Fine w n p = IsFine w n (next_place w n p).entries (next_place w n p).next

claim-IsFine :
    (w : World) (n i : ℕ) (is : List ℕ)
    → IsSound w
    → (thread w.threads n).place ≡ probing (i ∷ is)
    → (slot w.entries i).in_use ≡ false
    → IsFine w n (set w.entries i (record (slot w.entries i) { in_use = true })) (claimed i)
claim-IsFine w n i is s e free =
    let a : Agrees w.entries (thread w.threads n).key (probing (i ∷ is)) = rw e at (s.agree n) in
    let entry : TableEntry = record (slot w.entries i) { in_use = true } in
    let blank = s.blank i free in
    write-IsFine w n i entry (claimed i) s a.0 refl (λ stuck. absurd cc) (grind slot_laws)
      (λ m apart k has busy why. absurd cc) (λ j mine. inr (ground arith)) (λ j other. rw e refl)
      (inl (ground arith))

key-IsFine :
    (w : World) (n i : ℕ)
    → IsSound w
    → (thread w.threads n).place ≡ claimed i
    → IsFine w n
        (set w.entries i (record (slot w.entries i) { key = (thread w.threads n).key }))
        (keyed i)
key-IsFine w n i s e =
    let a : Has w.entries i [] = rw e at (s.agree n) in
    let entry : TableEntry = record (slot w.entries i) { key = (thread w.threads n).key } in
    let mine : owns (thread w.threads n).place i ≡ true = rw e (ground arith) in
    write-IsFine w n i entry (keyed i) s a.0 a.1 (λ stuck. absurd cc) (grind slot_laws)
      (λ m apart k has busy why. elim why [
        | inl its_key ↦ elim (s.named m) [
          | inl stuck ↦ absurd (busy stuck)
          | inr some_key ↦ absurd (let blank = a.2 in let held = has.2 in ground arith)
        ]
        | inr owned ↦ absurd (apart (s.one m n i owned mine))
      ])
      (λ j its. inl (rw e its)) (λ j other. rw e other) (inl (ground arith))

value-IsFine :
    (w : World) (n i : ℕ) (p : Place)
    → IsSound w
    → Has w.entries i (thread w.threads n).key
    → (thread w.threads n).place ≢ full
    → ((j : ℕ) → (i == j) ≡ false → owns (thread w.threads n).place j ≡ false)
    → ((j : ℕ) → owns p j ≡ false)
    → Agrees
        (set w.entries i (record (slot w.entries i) { value = (thread w.threads n).value }))
        (thread w.threads n).key
        p
    → IsFine w n
        (set w.entries i (record (slot w.entries i) { value = (thread w.threads n).value }))
        p
value-IsFine w n i p s (low, used, its_key) going elsewhere after a =
    let entry : TableEntry = record (slot w.entries i) { value = (thread w.threads n).value } in
    write-IsFine w n i entry p s low used (λ stuck. absurd (going stuck)) a
      (λ m apart k has busy why. has.2) (λ j its. absurd (let e = after j in cc)) elsewhere
      (inr (sym its_key, refl))

-- An entry with the key of a thread is in use, since a free one has no key.
key_in_use :
    (w : World) (n i : ℕ)
    → IsSound w
    → (thread w.threads n).place ≢ full
    → (slot w.entries i).key ≡ (thread w.threads n).key
    → (slot w.entries i).in_use ≡ true
key_in_use w n i s going same = elim (Bool-cases (slot w.entries i).in_use) [
  | inl used ↦ used
  | inr free ↦ elim (s.named n) [
    | inl stuck ↦ absurd (going stuck)
    | inr some_key ↦ absurd (let blank = s.blank i free in ground arith)
  ]
]

move-IsFine :
    (w : World) (n : ℕ) (p : Place) → IsSound w → (thread w.threads n).place ≡ p → Fine w n p
unfolding move
move-IsFine w n (probing []) s e =
    still-IsFine w n full s (λ stuck. refl) (λ i. rw e refl) (λ i. refl) tt
move-IsFine w n (probing (i ∷ is)) s e =
    let a : Agrees w.entries (thread w.threads n).key (probing (i ∷ is)) = rw e at (s.agree n) in
    elim (Bool-cases (slot w.entries i).in_use) [
      | inl used ↦
          rw (used, move)
            (still-IsFine w n (occupied i is) s (λ stuck. absurd cc) (λ j. rw e refl) (λ j. refl) a)
      | inr free ↦ rw (free, move) (claim-IsFine w n i is s e free)
    ]
move-IsFine w n (occupied i is) s e =
    let a : Agrees w.entries (thread w.threads n).key (occupied i is) = rw e at (s.agree n) in
    elim (Bool-cases (same_text (slot w.entries i).key (thread w.threads n).key)) [
      | inl same ↦
          rw (same, move)
            (still-IsFine w n (matched i) s (λ stuck. absurd cc) (λ j. rw e refl) (λ j. refl)
              (
                a.0,
                key_in_use w n i s (rw e (λ stuck. cc)) (same_text-eq _ _ same),
                same_text-eq _ _ same,
              ))
      | inr other ↦
          rw (other, move)
            (still-IsFine w n (probing is) s (λ stuck. absurd cc) (λ j. rw e refl) (λ j. refl) a.1)
    ]
move-IsFine w n (claimed i) s e = key-IsFine w n i s e
move-IsFine w n (keyed i) s e =
    let a : Has w.entries i (thread w.threads n).key = rw e at (s.agree n) in
    let entry : TableEntry = record (slot w.entries i) { value = (thread w.threads n).value } in
    value-IsFine w n i (stored i) s a (λ stuck. cc) (λ j other. rw e other) (λ j. refl)
      (grind slot_laws)
move-IsFine w n (stored i) s e =
    let a : Has w.entries i (thread w.threads n).key = rw e at (s.agree n) in
    still-IsFine w n (done i) s (λ stuck. absurd cc) (λ j. rw e refl) (λ j. refl) a
move-IsFine w n (matched i) s e =
    let a : Has w.entries i (thread w.threads n).key = rw e at (s.agree n) in
    let entry : TableEntry = record (slot w.entries i) { value = (thread w.threads n).value } in
    value-IsFine w n i (done i) s a (λ stuck. cc) (λ j other. rw e refl) (λ j. refl)
      (grind slot_laws)
move-IsFine w n (done i) s e =
    let a : Has w.entries i (thread w.threads n).key = rw e at (s.agree n) in
    still-IsFine w n (done i) s (λ stuck. absurd cc) (λ j. rw e refl) (λ j. refl) a
move-IsFine w n full s e = still-IsFine w n full s (λ stuck. refl) (λ i. rw e refl) (λ i. refl) tt

pub step-IsSound : (w : World) (n : ℕ) → IsSound w → IsSound (step w n)
unfolding step
step-IsSound w n s =
    let t = thread w.threads n in
    let m = move w.entries t.key t.value t.place in
    moved-IsSound w n m.entries m.next ((w.current_size + m.counted) % 2 ^ 64) s
      (move-IsFine w n t.place s refl)

pub run-IsSound : (w : World) (ns : List ℕ) → IsSound w → IsSound (run w ns)
unfolding run
run-IsSound w [] s = s
run-IsSound w (n ∷ ns) s = run-IsSound (step w n) ns (step-IsSound w n s)
