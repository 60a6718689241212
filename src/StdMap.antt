-- ===== src/StdMap.antt =====
-- std::map<int, V>, as the program uses it: the list of its pairs in key order.
pub mod Laws
use packet_classifier.Prelude.{
  Bool, true, false, List, [], ◌∷◌, Option, none, some, if◌then◌else◌, map,
}
use packet_classifier.Prelude.Int.{ℤ, ltb_ℤ, ◌==ℤ◌}

abbrev pub StdMap {ℓ} : Type ℓ → Type ℓ
StdMap V = List (ℤ × V)

module _ {ℓ} {V : Type ℓ} where
  -- `m.find(k)`, with `none` for `m.end()`.
  unfoldable pub find : ℤ → StdMap V → Option V
  find k [] = none
  find k ((j, v) ∷ m) = if j ==ℤ k then some v else find k m

  -- `m.emplace(k, v)` changes nothing where the key is there.
  unfoldable pub emplace : ℤ → V → StdMap V → StdMap V
  emplace k v [] = (k, v) ∷ []
  emplace k v ((j, w) ∷ m) =
      if ltb_ℤ k j
      then (k, v) ∷ (j, w) ∷ m
      else if j ==ℤ k
      then (j, w) ∷ m
      else (j, w) ∷ emplace k v m

  -- `m.erase(k)`
  unfoldable pub erase : ℤ → StdMap V → StdMap V
  erase k [] = []
  erase k ((j, w) ∷ m) = if j ==ℤ k then m else (j, w) ∷ erase k m

  -- `it->second = v`, for the iterator `it` at the key.
  unfoldable pub assign : ℤ → V → StdMap V → StdMap V
  assign k v [] = []
  assign k v ((j, w) ∷ m) = if j ==ℤ k then (j, v) ∷ m else (j, w) ∷ assign k v m

  -- `m.count(k) != 0`
  abbrev pub contains : ℤ → StdMap V → Bool
  contains k m = elim (find k m) [ none ↦ false | some v ↦ true ]

  -- Assignment to the value of every pair.
  unfoldable pub update_all : (V → V) → StdMap V → StdMap V
  update_all f [] = []
  update_all f ((j, v) ∷ m) = (j, f v) ∷ update_all f m

  abbrev pub keys : StdMap V → List ℤ
  keys = map λ e. e.0
