-- ===== src/IntervalTree/Range.antt =====
-- The query for a range in src/data_structures/interval_tree.cpp: as for a point, with the other
-- pruning tests.
use mathlib.Core.List.Perm
use mathlib.Core.List.{Perm}
use packet_classifier.Prelude.{
  ◌≡◌, refl, sym, false, ◌&&◌, [], ◌++◌, arith, All, All-map, filter, filter-append, filter_none,
  Bool-cases, inl, inr, if◌then◌else◌, ap,
}
use packet_classifier.Prelude.Int.{leb_ℤ, ltb_ℤ}
use packet_classifier.IntervalTree.{
  Interval, Tree, leaf, node, less, one_if, reaches, is_node, find_range, find_overlapping,
}
use packet_classifier.IntervalTree.Shape.{inorder, IsSound}
use packet_classifier.IntervalTree.Order.{IsOrdered, Ordered-Split}
use packet_classifier.IntervalTree.Query.{
  preorder, All-preorder, unreached-All, overlaps, filter-cons, filter-Perm,
}

module _ (query : Interval) where
  range_left :
      (l : Tree)
      → IsSound l
      → find_range l query ≡ filter (overlaps query) (preorder l)
      → (if reaches l query.low then find_range l query else [])
        ≡ filter (overlaps query) (preorder l)
  range_left l s ih = elim (Bool-cases (reaches l query.low)) [
    | inl far ↦ rw far ih
    | inr short ↦ rw short (
        sym (
          filter_none (overlaps query) (preorder l)
            (All-map (λ x h. ground arith) (preorder l) (unreached-All l query.low s short))))
  ]

  range_right :
      (i : Interval) (r : Tree)
      → All (λ y. less y i ≡ false) (preorder r)
      → find_range r query ≡ filter (overlaps query) (preorder r)
      → (if is_node r && leb_ℤ i.low query.high then find_range r query else [])
        ≡ filter (overlaps query) (preorder r)
  unfolding preorder filter
  range_right i leaf after ih = refl
  range_right i (node j n k a b) after ih =
      let r = node j n k a b in
      elim (Bool-cases (leb_ℤ i.low query.high)) [
        | inl reached ↦ rw reached ih
        | inr low ↦ rw low (
            sym (
              filter_none (overlaps query) (preorder r)
                (All-map (λ y h. ground arith) (preorder r) after)))
      ]

  find_range-filter :
      (t : Tree)
      → IsSound t
      → IsOrdered (inorder t)
      → find_range t query ≡ filter (overlaps query) (preorder t)
  unfolding find_range preorder inorder
  find_range-filter leaf s o = unfold filter in refl
  find_range-filter (node i m h l r) s o =
      let parts = Ordered-Split (λ a b. less b a ≡ false) i (inorder l) (inorder r) o in
      let after = All-preorder (λ y. less y i ≡ false) r parts.after in
      let left = range_left l s.4 (find_range-filter l s.4 parts.left) in
      let right = range_right i r after (find_range-filter r s.5 parts.right) in
      rw
        (
          filter-cons (overlaps query) i (preorder l ++ preorder r),
          filter-append (overlaps query) (preorder l) (preorder r),
        )
        (ap (λ xs. one_if (overlaps query i) i ++ xs) (λ k. left k ++ right k))

-- The intervals found for a range are those of the tree that overlap it; a range with its ends out
-- of order finds none.
pub find_overlapping-Perm :
    (t : Tree) (query : Interval)
    → IsSound t
    → IsOrdered (inorder t)
    → Perm
        (find_overlapping t query)
        (if ltb_ℤ query.high query.low then [] else filter (overlaps query) (inorder t))
unfolding find_overlapping
find_overlapping-Perm t query s o = elim (Bool-cases (ltb_ℤ query.high query.low)) [
  | inl crossed ↦ rw crossed (Perm.refl [])
  | inr straight ↦ rw (straight, find_range-filter query t s o) (filter-Perm (overlaps query) t)
]
