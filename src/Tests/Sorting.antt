-- ===== src/Tests/Sorting.antt =====
-- An insertion sort, which has the laws that are asked of std::sort.
use packet_classifier.Prelude.{
  ◌≡◌, refl, Bool, false, List, [], ◌∷◌, arith, All, All-map, Ordered, Bool-cases, inl, inr,
  if◌then◌else◌,
}
use packet_classifier.Prelude.Int.{ℤ}
use packet_classifier.StdMap.Laws.{count}
use packet_classifier.StdSort.{StdSort, StrictWeak}

module _ (before : ℤ → ℤ → Bool) where
  pub insert : ℤ → List ℤ → List ℤ
  insert x [] = x ∷ []
  insert x (y ∷ ys) = if before x y then x ∷ y ∷ ys else y ∷ insert x ys

  pub sort : List ℤ → List ℤ
  unfolding insert
  sort [] = []
  sort (x ∷ xs) = insert x (sort xs)

  count-insert : (a x : ℤ) (ys : List ℤ) → count a (insert x ys) ≡ count a (x ∷ ys)
  unfolding insert count
  count-insert a x [] = refl
  count-insert a x (y ∷ ys) = ground (arith, count-insert a x ys)

  pub count-sort : (xs : List ℤ) (a : ℤ) → count a (sort xs) ≡ count a xs
  unfolding sort count
  count-sort [] a = refl
  count-sort (x ∷ xs) a = ground (arith, count-insert a x (sort xs), count-sort xs a)

  All-insert : (P : ℤ → Type 0) (x : ℤ) (ys : List ℤ) → P x → All P ys → All P (insert x ys)
  unfolding insert
  All-insert P x [] p h = (p, tt)
  All-insert P x (y ∷ ys) p h = ground (arith, All-insert P x ys p h.1)

  module _ (w : StrictWeak before) where
    insert-Ordered :
        (x : ℤ) (ys : List ℤ)
        → Ordered (λ a b. before b a ≡ false) ys
        → Ordered (λ a b. before b a ≡ false) (insert x ys)
    unfolding insert
    insert-Ordered x [] o = (tt, tt)
    insert-Ordered x (y ∷ ys) o = elim (Bool-cases (before x y)) [
      | inl low ↦ rw low (
        (
          ground (arith, w.transitive x y x, w.irreflexive x),
          All-map (λ b h. ground (arith, w.transitive b x y)) ys o.0,
        ),
        o,
      )
      | inr high ↦
          rw high (All-insert (λ b. before b y ≡ false) x ys high o.0, insert-Ordered x ys o.1)
    ]

    pub sort-Ordered : (xs : List ℤ) → Ordered (λ a b. before b a ≡ false) (sort xs)
    unfolding sort
    sort-Ordered [] = tt
    sort-Ordered (x ∷ xs) = insert-Ordered x (sort xs) (sort-Ordered xs)

unfoldable pub insertion_sort : StdSort
unfolding sort
insertion_sort = record {
  sort = sort;
  count-sort = count-sort;
  sort-Ordered = λ before xs w. sort-Ordered before w xs;
}
