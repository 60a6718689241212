-- ===== src/ConcurrentHash/Lookups/Seen.antt =====
-- What a lookup in src/data_structures/concurrent_hash.cpp has seen of a key, while threads insert.
use packet_classifier.Prelude.{
  ℕ, ◌≡◌, ◌≢◌, sym, ap, refl, ◌++◌, ◌∙◌, ◌⊎◌, inl, inr, true, false, List, [], ◌∷◌, Option, none,
  some, arith, Bool-cases, All,
}
use packet_classifier.Prelude.Int.{negsuc}
use packet_classifier.Text.{Str, same_text, same_text_self, same_text-eq, is_empty}
use packet_classifier.ConcurrentHash.{TableEntry, slot}
use packet_classifier.ConcurrentHash.Inserts.{
  Place, probing, occupied, claimed, keyed, stored, matched, done, full, World, thread, step,
}
use packet_classifier.ConcurrentHash.Inserts.Steps.{Agrees, owns}
use packet_classifier.ConcurrentHash.Lookups.{
  Seek, seeking, used, equal, found, missing, look, Scene, turn, play,
}
use packet_classifier.ConcurrentHash.Lookups.Sights.{Shows}
use packet_classifier.ConcurrentHash.Lookups.Watch.{
  Gives, IsWatched, step-IsWatched, Shows-step, key_in_use,
}

-- A thread that inserts the key has written it to the entry and not yet the value.
abbrev pub IsHalf : World → Str → ℕ → Type 0
IsHalf w key i = (m : ℕ) × ((thread w.threads m).key ≡ key) × ((thread w.threads m).place ≡ keyed i)

-- The step of the lookup that reads a value comes where the insertion of the entry is half done.
abbrev pub HalfSeen : Str → Scene → List (Option ℕ) → Type 0
HalfSeen key c ms =
    (before : List (Option ℕ)) × (after : List (Option ℕ)) × (i : ℕ) × (ms ≡ before ++ none ∷ after)
    × ((play key c before).seek ≡ equal i)
    × IsHalf (play key c before).world key i

HalfSeen-cons :
    (key : Str) (c : Scene) (m : Option ℕ) (ms : List (Option ℕ))
    → HalfSeen key (turn key c m) ms
    → HalfSeen key c (m ∷ ms)
unfolding play
HalfSeen-cons key c m ms (before, after, i, split, there, half) =
    (m ∷ before, after, i, ap (λ s. m ∷ s) split, there, half)

-- The thread that owns an entry with a key that is not empty has written the key.
owns-keyed :
    (es : List TableEntry) (its : Str) (p : Place) (i : ℕ)
    → Agrees es its p
    → owns p i ≡ true
    → is_empty (slot es i).key ≡ false
    → (its ≡ (slot es i).key) × (p ≡ keyed i)
owns-keyed es its (claimed j) i a h some_key =
    absurd (let same : j ≡ i = ground arith in let blank = rw same at a.2 in ground arith)
owns-keyed es its (keyed j) i a h some_key =
    let same : j ≡ i = ground arith in (sym (rw same at a.2), ap keyed same)
owns-keyed es its (probing is) i a h some_key = absurd cc
owns-keyed es its (occupied j is) i a h some_key = absurd cc
owns-keyed es its (stored j) i a h some_key = absurd cc
owns-keyed es its (matched j) i a h some_key = absurd cc
owns-keyed es its (done j) i a h some_key = absurd cc
owns-keyed es its full i a h some_key = absurd cc

-- A value in an entry of a key is that of a thread, or a thread has not written it yet.
source-Gives :
    (w0 w : World) (key : Str) (i : ℕ)
    → IsWatched w0 w
    → is_empty key ≡ false
    → Shows w.entries i key
    → IsHalf w key i ⊎ Gives w0 key (slot w.entries i).value
source-Gives w0 w key i v some_key (on, its_key) = elim (v.sound.source i on) [
  | inl (m, owned) ↦
      let t = thread w.threads m in
      let (mine, there) =
        owns-keyed w.entries t.key t.place i (v.sound.agree m) owned (rw its_key some_key) in
      inl (m, mine ∙ its_key, there)
  | inr (m, mine, its_value) ↦
      let (k, x) = v.texts m in inr (m, sym k ∙ mine ∙ its_key, sym x ∙ its_value)
]

module _ (w0 : World) (key : Str) (some_key : is_empty key ≡ false) (target : ℕ) where
  -- The entry of the key is still ahead.
  abbrev pub Ahead : List ℕ → Type 0
  Ahead is = All (λ i. i ≢ target) is → ⊥

  -- `H` is what accounts for the value of a new entry.
  abbrev pub Sees : Type 0 → List TableEntry → Seek → Type 0
  Sees H es (seeking is) = Ahead is
  Sees H es (used i is) = i ≢ target → Ahead is
  Sees H es (equal i) = Shows es i key
  Sees H es (found value) = ((value ≡ negsuc 0) × H) ⊎ Gives w0 key value
  Sees H es missing = ⊥

  Sees-map :
      (H H' : Type 0) (es : List TableEntry) (s : Seek) → (H → H') → Sees H es s → Sees H' es s
  Sees-map H H' es (seeking is) f h = h
  Sees-map H H' es (used i is) f h = h
  Sees-map H H' es (equal i) f h = h
  Sees-map H H' es (found value) f h = elim h [
    | inl (fresh, why) ↦ inl (fresh, f why)
    | inr given ↦ inr given
  ]
  Sees-map H H' es missing f h = h

  abbrev HalfNow : World → Seek → Type 0
  HalfNow w s = (i : ℕ) × (s ≡ equal i) × IsHalf w key i

  look-Sees :
      (H : Type 0) (w : World) (s : Seek)
      → IsWatched w0 w
      → Shows w.entries target key
      → Sees H w.entries s
      → Sees (H ⊎ HalfNow w s) w.entries (look w.entries key s)
  unfolding look
  look-Sees H w (seeking []) v there h = h tt
  look-Sees H w (seeking (i ∷ is)) v there h = elim (Bool-cases (slot w.entries i).in_use) [
    | inl on ↦ rw (on, look) (λ other all. h (other, all))
    | inr off ↦
        rw (off, look)
          (λ all. h (
            (λ same.
                let free : (slot w.entries target).in_use ≡ false = rw same at off in
                let taken = there.0 in cc),
            all,
          ))
  ]
  look-Sees H w (used i is) v there h = elim (Bool-cases (same_text (slot w.entries i).key key)) [
    | inl same ↦
        let its_key = same_text-eq (slot w.entries i).key key same in
        rw (same, look) (key_in_use w i some_key v its_key, its_key)
    | inr other ↦
        rw (other, look)
          (h (λ same.
            let its_key : (slot w.entries i).key ≡ key = rw same there.1 in
            let e = same_text_self key in absurd (let o = rw its_key at other in cc)))
  ]
  look-Sees H w (equal i) v there (on, its_key) = elim (v.filled i) [
    | inl fresh ↦ elim (source-Gives w0 w key i v some_key (on, its_key)) [
      | inl half ↦ inl (fresh, inr (i, refl, half))
      | inr given ↦ inr given
    ]
    | inr (given, named) ↦ inr (rw its_key at given)
  ]
  look-Sees H w (found value) v there h = Sees-map H _ w.entries (found value) inl h
  look-Sees H w missing v there h = h

  step-Sees :
      (H : Type 0) (w : World) (n : ℕ) (s : Seek)
      → IsWatched w0 w
      → Sees H w.entries s
      → Sees H (step w n).entries s
  step-Sees H w n (seeking is) v h = h
  step-Sees H w n (used i is) v h = h
  step-Sees H w n (equal i) v h = Shows-step w n i key v.sound some_key h
  step-Sees H w n (found value) v h = h
  step-Sees H w n missing v h = h

  pub play-Sees :
      (H : Type 0) (c : Scene) (ms : List (Option ℕ))
      → IsWatched w0 c.world
      → Shows c.world.entries target key
      → Sees H c.world.entries c.seek
      → Sees (H ⊎ HalfSeen key c ms) (play key c ms).world.entries (play key c ms).seek
  unfolding play turn
  play-Sees H c [] v there h = Sees-map H _ c.world.entries c.seek inl h
  play-Sees H c (none ∷ ms) v there h =
      let c' = turn key c none in
      Sees-map _ _ (play key c' ms).world.entries (play key c' ms).seek
        (λ why. elim why [
          | inl (inl before) ↦ inl before
          | inl (inr (i, there', half)) ↦ inr ([], ms, i, refl, there', half)
          | inr later ↦ inr (HalfSeen-cons key c none ms later)
        ])
        (play-Sees (H ⊎ HalfNow c.world c.seek) c' ms v there
          (look-Sees H c.world c.seek v there h))
  play-Sees H c (some n ∷ ms) v there h =
      let c' = turn key c (some n) in
      Sees-map _ _ (play key c' ms).world.entries (play key c' ms).seek
        (λ why. elim why [
          | inl before ↦ inl before
          | inr later ↦ inr (HalfSeen-cons key c (some n) ms later)
        ])
        (play-Sees H c' ms (step-IsWatched w0 c.world n v)
          (Shows-step c.world n target key v.sound some_key there)
          (step-Sees H c.world n c.seek v h))
