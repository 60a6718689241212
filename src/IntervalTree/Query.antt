-- ===== src/IntervalTree/Query.antt =====
-- The query for a point in src/data_structures/interval_tree.cpp against a filter on the list.
use mathlib.Core.List.{Perm, perm_middle}
use mathlib.Core.List.Perm
use packet_classifier.Prelude.{
  ◌≡◌, refl, sym, Bool, false, ◌&&◌, List, [], ◌∷◌, ◌++◌, arith, All, All-map, filter,
  filter-append, filter_none, Bool-cases, inl, inr, if◌then◌else◌, ap,
}
use packet_classifier.Prelude.Int.{ℤ, leb_ℤ, ltb_ℤ}
use packet_classifier.IntervalTree.{
  Interval, Tree, leaf, node, less, max_high_of, one_if, reaches, is_node, find_point,
  find_overlapping_point,
}
use packet_classifier.IntervalTree.Shape.{inorder, IsSound}
use packet_classifier.IntervalTree.Order.{IsOrdered, Ordered-Split, All-append, All-append_join}

-- Each node before its left subtree, and that before the right one.
unfoldable pub preorder : Tree → List Interval
preorder leaf = []
preorder (node i m h l r) = i ∷ (preorder l ++ preorder r)

pub All-preorder : (P : Interval → Type 0) (t : Tree) → All P (inorder t) → All P (preorder t)
unfolding preorder inorder
All-preorder P leaf h = tt
All-preorder P (node i m k l r) h =
    let (x, y) = All-append P (inorder l) (i ∷ inorder r) h in
    (y.0, All-append_join P (preorder l) (preorder r) (All-preorder P l x) (All-preorder P r y.1))

-- A bound that the stored maximum does not reach is reached by no part.
unreached :
    (i : Interval) (l r : Tree) (bound : ℤ)
    → leb_ℤ bound (max_high_of i l r) ≡ false
    → (leb_ℤ bound i.high ≡ false) × (reaches l bound ≡ false) × (reaches r bound ≡ false)
unreached i leaf leaf bound h = (h, refl, refl)
unreached i leaf (node j n k a b) bound h = ground arith
unreached i (node j n k a b) leaf bound h = ground arith
unreached i (node j n k a b) (node j' n' k' a' b') bound h = ground arith

pub unreached-All :
    (t : Tree) (bound : ℤ)
    → IsSound t
    → reaches t bound ≡ false
    → All (λ x. leb_ℤ bound x.high ≡ false) (preorder t)
unfolding preorder
unreached-All leaf bound s h = tt
unreached-All (node i m k l r) bound s h =
    let (own, in_left, in_right) = unreached i l r bound (rw s.0 at h) in
    (
      own,
      All-append_join _ (preorder l) (preorder r) (unreached-All l bound s.4 in_left)
          (unreached-All r bound s.5 in_right),
    )

abbrev pub covers : ℤ → Interval → Bool
covers point i = leb_ℤ i.low point && leb_ℤ point i.high

abbrev pub overlaps : Interval → Interval → Bool
overlaps query i = leb_ℤ query.low i.high && leb_ℤ i.low query.high

pub filter-cons :
    (test : Interval → Bool) (i : Interval) (xs : List Interval)
    → filter test (i ∷ xs) ≡ one_if (test i) i ++ filter test xs
unfolding filter
filter-cons test i xs = elim (Bool-cases (test i)) [ inl passes ↦ rw passes | inr fails ↦ rw fails ]

-- The filtered preorder and the filtered inorder are permutations of one another.
pub filter-Perm :
    (test : Interval → Bool) (t : Tree) → Perm (filter test (preorder t)) (filter test (inorder t))
unfolding preorder inorder filter
filter-Perm test leaf = Perm.refl []
filter-Perm test (node i m k l r) =
    let parts = Perm.append (filter-Perm test l) (filter-Perm test r) in
    rw
      (filter-append test (preorder l) (preorder r), filter-append test (inorder l) (i ∷ inorder r))
      (elim (Bool-cases (test i)) [
        | inl passes ↦ rw passes (
            Perm.trans (Perm.cons i parts)
              (Perm.symm (perm_middle (filter test (inorder l)) (filter test (inorder r)))))
        | inr fails ↦ rw fails parts
      ])

module _ (point : ℤ) where
  point_left :
      (l : Tree)
      → IsSound l
      → find_point l point ≡ filter (covers point) (preorder l)
      → (if reaches l point then find_point l point else []) ≡ filter (covers point) (preorder l)
  point_left l s ih = elim (Bool-cases (reaches l point)) [
    | inl far ↦ rw far ih
    | inr short ↦ rw short (
        sym (
          filter_none (covers point) (preorder l)
            (All-map (λ x h. ground arith) (preorder l) (unreached-All l point s short))))
  ]

  point_right :
      (i : Interval) (r : Tree)
      → All (λ y. less y i ≡ false) (preorder r)
      → find_point r point ≡ filter (covers point) (preorder r)
      → (if is_node r && leb_ℤ i.low point
          then find_point r point
          else if reaches r point && ltb_ℤ i.high point
          then find_point r point
          else [])
        ≡ filter (covers point) (preorder r)
  unfolding preorder filter
  point_right i leaf after ih = refl
  point_right i (node j n k a b) after ih =
      let r = node j n k a b in
      elim (Bool-cases (leb_ℤ i.low point)) [
        | inl reached ↦ rw reached ih
        | inr low ↦
            let skip =
              filter_none (covers point) (preorder r)
                (All-map (λ y h. ground arith) (preorder r) after) in
            elim (Bool-cases (reaches r point && ltb_ℤ i.high point)) [
              | inl far ↦ rw (low, far) ih
              | inr short ↦ rw (low, short) (sym skip)
            ]
      ]

  find_point-filter :
      (t : Tree)
      → IsSound t
      → IsOrdered (inorder t)
      → find_point t point ≡ filter (covers point) (preorder t)
  unfolding find_point preorder inorder
  find_point-filter leaf s o = unfold filter in refl
  find_point-filter (node i m h l r) s o =
      let parts = Ordered-Split (λ a b. less b a ≡ false) i (inorder l) (inorder r) o in
      let after = All-preorder (λ y. less y i ≡ false) r parts.after in
      let left = point_left l s.4 (find_point-filter l s.4 parts.left) in
      let right = point_right i r after (find_point-filter r s.5 parts.right) in
      rw
        (
          filter-cons (covers point) i (preorder l ++ preorder r),
          filter-append (covers point) (preorder l) (preorder r),
        )
        (ap (λ xs. one_if (covers point i) i ++ xs) (λ k. left k ++ right k))

-- The intervals found for a point are those of the tree that cover it.
pub find_overlapping_point-Perm :
    (t : Tree) (point : ℤ)
    → IsSound t
    → IsOrdered (inorder t)
    → Perm (find_overlapping_point t point) (filter (covers point) (inorder t))
unfolding find_overlapping_point
find_overlapping_point-Perm t point s o =
    rw (find_point-filter point t s o) (filter-Perm (covers point) t)
