-- ===== src/StdSort.antt =====
-- std::sort as a parameter: it permutes the range, and for a strict weak order no element comes
-- before one that is its lesser. How it places equal elements is left open.
use packet_classifier.Prelude.{◌≡◌, Bool, true, false, List, Ordered}
use packet_classifier.Prelude.Int.{ℤ}
use packet_classifier.StdMap.Laws.{count}

pub record StrictWeak (before : ℤ → ℤ → Bool) : Type 0 where
  pub irreflexive : (a : ℤ) → before a a ≡ false
  pub transitive : (a b c : ℤ) → before a b ≡ true → before b c ≡ true → before a c ≡ true
  pub co_transitive : (a b c : ℤ) → before a b ≡ false → before b c ≡ false → before a c ≡ false

pub record StdSort : Type 0 where
  pub sort : (ℤ → ℤ → Bool) → List ℤ → List ℤ
  pub count-sort :
      (before : ℤ → ℤ → Bool) (xs : List ℤ) (a : ℤ) → count a (sort before xs) ≡ count a xs
  pub sort-Ordered :
      (before : ℤ → ℤ → Bool) (xs : List ℤ)
      → StrictWeak before
      → Ordered (λ a b. before b a ≡ false) (sort before xs)
