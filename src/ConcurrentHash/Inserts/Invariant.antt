-- ===== src/ConcurrentHash/Inserts/Invariant.antt =====
-- What holds of the entries and the threads whichever thread moves.
use packet_classifier.Prelude.{
  ℕ, ◌≡◌, ◌≢◌, sym, ◌∙◌, ◌⊎◌, inl, inr, true, false, List, [], ◌==◌, if◌then◌else◌, arith,
  Bool-cases,
}
use packet_classifier.Text.{Str, is_empty}
use packet_classifier.ConcurrentHash.{TableEntry, slot}
use packet_classifier.ConcurrentHash.Inserts.{
  Place, probing, occupied, claimed, keyed, stored, matched, done, full, Thread, World, thread,
}
use packet_classifier.ConcurrentHash.Inserts.Steps.{Agrees, owns, moved, thread-moved}

-- A thread has the key and the value of the entry.
abbrev pub FromThread : List Thread → TableEntry → Type 0
FromThread ts e = (n : ℕ) × ((thread ts n).key ≡ e.key) × ((thread ts n).value ≡ e.value)

abbrev pub Owned : List Thread → ℕ → Type 0
Owned ts i = (n : ℕ) × (owns (thread ts n).place i ≡ true)

pub record IsSound (w : World) : Type 0 where
  pub agree : (n : ℕ) → Agrees w.entries (thread w.threads n).key (thread w.threads n).place
  pub named :
      (n : ℕ) → ((thread w.threads n).place ≡ full) ⊎ (is_empty (thread w.threads n).key ≡ false)
  pub one :
      (n m i : ℕ)
      → owns (thread w.threads n).place i ≡ true
      → owns (thread w.threads m).place i ≡ true
      → n ≡ m
  pub blank : (i : ℕ) → (slot w.entries i).in_use ≡ false → (slot w.entries i).key ≡ []
  pub source :
      (i : ℕ)
      → (slot w.entries i).in_use ≡ true
      → Owned w.threads i ⊎ FromThread w.threads (slot w.entries i)

-- What is asked of a move of the thread `n` to `p` that leaves the entries `es`.
pub record IsFine (w : World) (n : ℕ) (es : List TableEntry) (p : Place) : Type 0 where
  pub mine : Agrees es (thread w.threads n).key p
  pub others : (m : ℕ) → m ≢ n → Agrees es (thread w.threads m).key (thread w.threads m).place
  pub stays : (thread w.threads n).place ≡ full → p ≡ full
  pub claims :
      (i : ℕ)
      → owns p i ≡ true
      → (owns (thread w.threads n).place i ≡ true) ⊎ ((slot w.entries i).in_use ≡ false)
  pub empty : (i : ℕ) → (slot es i).in_use ≡ false → (slot es i).key ≡ []
  pub writes :
      (i : ℕ)
      → (slot es i).in_use ≡ true
      → (owns p i ≡ true)
        ⊎ (((slot es i ≡ slot w.entries i) × (owns (thread w.threads n).place i ≡ false))
            ⊎ (((thread w.threads n).key ≡ (slot es i).key)
                × ((thread w.threads n).value ≡ (slot es i).value)))

owns-in_use :
    (es : List TableEntry) (key : Str) (p : Place) (i : ℕ)
    → Agrees es key p
    → owns p i ≡ true
    → (slot es i).in_use ≡ true
owns-in_use es key (claimed j) i a h = ground arith
owns-in_use es key (keyed j) i a h = ground arith
owns-in_use es key (probing is) i a h = absurd cc
owns-in_use es key (occupied j is) i a h = absurd cc
owns-in_use es key (stored j) i a h = absurd cc
owns-in_use es key (matched j) i a h = absurd cc
owns-in_use es key (done j) i a h = absurd cc
owns-in_use es key full i a h = absurd cc

-- A move of a thread, with what is asked of it.
module _ (w : World) (n : ℕ) (es : List TableEntry) (p : Place) (size : ℕ) (s : IsSound w)
    (f : IsFine w n es p) where
  moved_text :
      (m : ℕ)
      → ((thread (moved w n es p size).threads m).key ≡ (thread w.threads m).key)
        × ((thread (moved w n es p size).threads m).value ≡ (thread w.threads m).value)
  moved_text m = ground (arith, thread-moved w n m es p size f.stays)

  moved_place :
      (m : ℕ)
      → (thread (moved w n es p size).threads m).place
        ≡ (if n == m then p else (thread w.threads m).place)
  moved_place m = ground (arith, thread-moved w n m es p size f.stays)

  moved-FromThread :
      (e : TableEntry) → FromThread w.threads e → FromThread (moved w n es p size).threads e
  moved-FromThread e (m, its_key, its_value) =
      let (k, v) = moved_text m in (m, k ∙ its_key, v ∙ its_value)

  -- Who owns an entry after the move.
  owner :
      (m i : ℕ)
      → owns (thread (moved w n es p size).threads m).place i ≡ true
      → ((n ≡ m) × (owns p i ≡ true)) ⊎ (owns (thread w.threads m).place i ≡ true)
  owner m i h = elim (Bool-cases (n == m)) [
    | inl here ↦ inl (ground arith, (rw (moved_place m, here) at h))
    | inr other ↦ inr (rw (moved_place m, other) at h)
  ]

  -- No other thread owns what the thread owns after the move.
  alone : (m i : ℕ) → owns p i ≡ true → owns (thread w.threads m).place i ≡ true → n ≡ m
  alone m i mine its = elim (f.claims i mine) [
    | inl before ↦ s.one n m i before its
    | inr free ↦
        let used =
          owns-in_use w.entries (thread w.threads m).key (thread w.threads m).place i (s.agree m)
            its in
        absurd cc
  ]

  still :
      (i : ℕ)
      → owns (thread w.threads n).place i ≡ false
      → Owned w.threads i
      → Owned (moved w n es p size).threads i
  still i not_mine (m, its) = elim (Bool-cases (n == m)) [
    | inl here ↦ absurd (ground arith)
    | inr other ↦ (m, rw (moved_place m, other) its)
  ]

  pub moved-IsSound : IsSound (moved w n es p size)
  moved-IsSound = record {
    agree = λ m. rw (thread-moved w n m es p size f.stays) (elim (Bool-cases (n == m)) [
      | inl here ↦ rw here f.mine
      | inr other ↦ rw other (f.others m (λ e. ground arith))
    ]);
    named = λ m. rw (thread-moved w n m es p size f.stays) (elim (Bool-cases (n == m)) [
      | inl here ↦
          rw here
            (elim (s.named n) [ inl stuck ↦ inl (f.stays stuck) | inr some_key ↦ inr some_key ])
      | inr other ↦ rw other (s.named m)
    ]);
    one = λ a b i h k. elim (owner a i h) [
      | inl (same, mine) ↦ elim (owner b i k) [
        | inl (same', mine') ↦ sym same ∙ same'
        | inr its ↦ sym same ∙ alone b i mine its
      ]
      | inr its ↦ elim (owner b i k) [
        | inl (same, mine) ↦ sym (alone a i mine its) ∙ same
        | inr its' ↦ s.one a b i its its'
      ]
    ];
    blank = f.empty;
    source = λ i used. elim (f.writes i used) [
      | inl mine ↦ inl (n, rw (moved_place n) (ground arith))
      | inr (inl (same, not_mine)) ↦ elim (s.source i (rw (← same) used)) [
        | inl owned ↦ inl (still i not_mine owned)
        | inr from ↦ inr (moved-FromThread (slot es i) (rw same from))
      ]
      | inr (inr (its_key, its_value)) ↦ inr (moved-FromThread (slot es i) (n, its_key, its_value))
    ];
  }
