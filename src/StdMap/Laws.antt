-- ===== src/StdMap/Laws.antt =====
-- What the operations of the map do to a lookup, to the keys and to the key order.
use mathlib.Core.Option
use packet_classifier.Prelude.{
  ℕ, suc, ◌≡◌, refl, ap, Bool, true, false, List, [], ◌∷◌, none, some, arith, All, All-map, Ordered,
  if◌then◌else◌, Bool-cases, Option-cases, inl, inr,
}
use packet_classifier.Prelude.Int.{ℤ, ◌<ℤ◌, ◌==ℤ◌, ==ℤ_iff, ltb_ℤ}
use packet_classifier.StdMap.{StdMap, find, emplace, erase, assign, update_all, contains, keys}

-- How often a key stands in a list.
unfoldable pub count : ℤ → List ℤ → ℕ
count a [] = 0
count a (x ∷ xs) = if x ==ℤ a then suc (count a xs) else count a xs

module _ {ℓ} {A : Type ℓ} (x y z : A) where
  -- Two tests that do not both pass can be made in either order.
  pick_swap :
      (b c : Bool)
      → (b ≡ true → c ≡ true → ⊥)
      → (if b then x else if c then y else z) ≡ (if c then y else if b then x else z)
  pick_swap true true h = absurd (h refl refl)
  pick_swap true false h = refl
  pick_swap false c h = refl

  pick_again : (b : Bool) → (if b then x else z) ≡ (if b then x else if b then y else z)
  pick_again true = refl
  pick_again false = refl

apart : (i k j : ℤ) → (i ==ℤ k) ≡ false → (i ==ℤ j) ≡ true → (k ==ℤ j) ≡ true → ⊥
apart i k j h p q = ground arith

module _ {ℓ} {V : Type ℓ} where
  -- The keys rise along the list.
  abbrev pub IsSorted : StdMap V → Type 0
  IsSorted m = Ordered ◌<ℤ◌ (keys m)

  pub find-emplace :
      (k j : ℤ) (v : V) (m : StdMap V)
      → find k m ≡ none
      → find j (emplace k v m) ≡ (if k ==ℤ j then some v else find j m)
  unfolding find emplace
  find-emplace k j v [] h = refl
  find-emplace k j v ((i, w) ∷ m) h = elim (Bool-cases (ltb_ℤ k i)) [
    | inl low ↦ rw low
    | inr high ↦ elim (Bool-cases (i ==ℤ k)) [
      | inl same ↦ cc (rw same at h)
      | inr other ↦
          rw (high, other, find-emplace k j v m (rw other at h))
            (pick_swap _ _ _ (i ==ℤ j) (k ==ℤ j) (apart i k j other))
    ]
  ]

  find_above : (k : ℤ) (m : StdMap V) → All (λ j. k <ℤ j) (keys m) → find k m ≡ none
  unfolding find
  find_above k [] h = refl
  find_above k ((j, w) ∷ m) h = ground (arith, find_above k m h.1)

  pub find-erase :
      (k j : ℤ) (m : StdMap V)
      → IsSorted m
      → find j (erase k m) ≡ (if k ==ℤ j then none else find j m)
  unfolding find erase
  find-erase k j [] s = ground arith
  find-erase k j ((i, w) ∷ m) s =
      ground
        (arith, find-erase k j m s.1, find_above i m s.0, ==ℤ_iff i k, ==ℤ_iff i j, ==ℤ_iff k j)

  pub find-update_all :
      (j : ℤ) (f : V → V) (m : StdMap V) → find j (update_all f m) ≡ Option.map f (find j m)
  unfolding find update_all
  find-update_all j f [] = refl
  find-update_all j f ((i, u) ∷ m) = elim (Bool-cases (i ==ℤ j)) [
    | inl same ↦ rw same
    | inr other ↦ rw (other, find-update_all j f m)
  ]

  pub keys-update_all : (f : V → V) (m : StdMap V) → keys (update_all f m) ≡ keys m
  unfolding update_all
  keys-update_all f [] = refl
  keys-update_all f ((i, u) ∷ m) = ap (◌∷◌ i) (keys-update_all f m)

  pub find-assign :
      (k j : ℤ) (v w : V) (m : StdMap V)
      → find k m ≡ some w
      → find j (assign k v m) ≡ (if k ==ℤ j then some v else find j m)
  unfolding find assign
  find-assign k j v w [] h = ground arith
  find-assign k j v w ((i, u) ∷ m) h = elim (Bool-cases (i ==ℤ k)) [
    | inl same ↦ rw same (rw ((==ℤ_iff i k).0 same) (pick_again _ _ _ (k ==ℤ j)))
    | inr other ↦
        rw (other, find-assign k j v w m (rw other at h))
          (pick_swap _ _ _ (i ==ℤ j) (k ==ℤ j) (apart i k j other))
  ]

  pub keys-assign : (k : ℤ) (v : V) (m : StdMap V) → keys (assign k v m) ≡ keys m
  unfolding assign
  keys-assign k v [] = refl
  keys-assign k v ((j, w) ∷ m) = ground (arith, keys-assign k v m)

  All-emplace :
      (P : ℤ → Type 0) (k : ℤ) (v : V) (m : StdMap V)
      → P k
      → All P (keys m)
      → All P (keys (emplace k v m))
  unfolding emplace
  All-emplace P k v [] p h = (p, tt)
  All-emplace P k v ((j, w) ∷ m) p h = ground (arith, All-emplace P k v m p h.1)

  All-erase : (P : ℤ → Type 0) (k : ℤ) (m : StdMap V) → All P (keys m) → All P (keys (erase k m))
  unfolding erase
  All-erase P k [] h = tt
  All-erase P k ((j, w) ∷ m) h = ground (arith, All-erase P k m h.1)

  pub emplace-IsSorted : (k : ℤ) (v : V) (m : StdMap V) → IsSorted m → IsSorted (emplace k v m)
  unfolding emplace
  emplace-IsSorted k v [] s = (tt, tt)
  emplace-IsSorted k v ((j, w) ∷ m) s = ground (
    arith,
    emplace-IsSorted k v m s.1,
    All-emplace (λ i. j <ℤ i) k v m,
    λ (low : k <ℤ j). All-map {P = λ i. j <ℤ i} {Q = λ i. k <ℤ i} (λ i h. omega arith) (keys m) s.0,
  )

  pub erase-IsSorted : (k : ℤ) (m : StdMap V) → IsSorted m → IsSorted (erase k m)
  unfolding erase
  erase-IsSorted k [] s = tt
  erase-IsSorted k ((j, w) ∷ m) s =
      ground (arith, erase-IsSorted k m s.1, All-erase (λ i. j <ℤ i) k m s.0)

  pub count-emplace :
      (k a : ℤ) (v : V) (m : StdMap V)
      → find k m ≡ none
      → count a (keys (emplace k v m)) ≡ count a (k ∷ keys m)
  unfolding count find emplace
  count-emplace k a v [] h = refl
  count-emplace k a v ((j, w) ∷ m) h = ground (arith, count-emplace k a v m)

  pub find-eq-none : (k : ℤ) (m : StdMap V) → contains k m ≡ false → find k m ≡ none
  find-eq-none k m h = elim (Option-cases (find k m)) [
    | inl gone ↦ gone
    | inr (v, there) ↦ cc (rw (there, contains) at h)
  ]

  count_above : (k : ℤ) (m : StdMap V) → All (λ j. k <ℤ j) (keys m) → count k (keys m) ≡ 0
  unfolding count
  count_above k [] h = refl
  count_above k ((j, w) ∷ m) h = ground (arith, count_above k m h.1)

-- A key of a sorted map stands there once.
pub count-keys {ℓ} :
    {V : Type ℓ} (k : ℤ) (m : StdMap V)
    → IsSorted m
    → count k (keys m) ≡ (if contains k m then 1 else 0)
unfolding count find
count-keys k [] s = refl
count-keys k ((j, w) ∷ m) s =
    let low = count_above j m s.0 in
    elim (Bool-cases (j ==ℤ k)) [
      | inl same ↦ rw (same, contains) (rw ((==ℤ_iff j k).0 same) at (ap suc low))
      | inr other ↦ rw (other, contains) (count-keys k m s.1)
    ]
