-- ===== src/IntervalTree/Insert.antt =====
-- `insertRecursive` of src/data_structures/interval_tree.cpp against the insertion into a list.
use packet_classifier.Prelude.{
  ◌+◌, ◌≤◌, ◌≡◌, refl, ◌∙◌, sym, false, Option, some, arith, inl, inr, Bool-cases, if◌then◌else◌,
}
use packet_classifier.Prelude.Int.{ltb_ℤ}
use packet_classifier.IntervalTree.{Interval, Tree, leaf, node, height, less, insert_recursive}
use packet_classifier.IntervalTree.Shape.{inorder, IsSound}
use packet_classifier.IntervalTree.Settle.{settle-Joins}
use packet_classifier.IntervalTree.Order.{
  IsOrdered, insert_sorted, insert_sorted-left, insert_sorted-right, Ordered-Split,
}

-- A balanced tree with the interval added, at most one level higher.
pub record Inserted (n : Interval) (t t' : Tree) : Type 0 where
  pub sound : IsSound t'
  pub order : inorder t' ≡ insert_sorted n (inorder t)
  pub grown : height t ≤ height t'
  pub bounded : height t' ≤ height t + 1

-- The two-level comparison of the source is that of `operator<`.
route :
    (n i : Interval) (x y : Option Tree)
    → (if ltb_ℤ n.low i.low
        then x
        else if ltb_ℤ i.low n.low
        then y
        else if ltb_ℤ n.high i.high
        then x
        else y)
      ≡ (if less n i then x else y)
route n i x y = ground arith

-- In a balanced tree in order an insertion reads no null pointer and adds the interval at its place;
-- the tree stays balanced with its stored heights and maxima right, and grows by one level at most.
pub insert_recursive-Inserted :
    (n : Interval) (t : Tree)
    → IsSound t
    → IsOrdered (inorder t)
    → (t' : Tree) × (insert_recursive n t ≡ some t') × Inserted n t t'
unfolding insert_recursive inorder
insert_recursive-Inserted n leaf s o = (
  node n n.high 1 leaf leaf,
  refl,
  record {
    sound = (refl, refl, omega arith, omega arith, tt, tt);
    order = unfold insert_sorted in refl;
    grown = omega arith;
    bounded = omega arith;
  },
)
insert_recursive-Inserted n (node i m h l r) s o =
    let split = Ordered-Split (λ a b. less b a ≡ false) i (inorder l) (inorder r) o in
    elim (Bool-cases (less n i)) [
      | inl low ↦
          let (l', does, q) = insert_recursive-Inserted n l s.4 split.left in
          let (t, joins, j) = settle-Joins i l' r q.sound s.5 (omega arith) (omega arith) in
          (
            t,
            rw (route n i, low, does) joins,
            record {
              sound = j.sound;
              order =
                  j.order ∙ rw q.order (sym (insert_sorted-left n i (inorder l) (inorder r) low));
              grown = omega arith;
              bounded = omega arith;
            },
          )
      | inr high ↦
          let (r', does, q) = insert_recursive-Inserted n r s.5 split.right in
          let (t, joins, j) = settle-Joins i l r' s.4 q.sound (omega arith) (omega arith) in
          (
            t,
            rw (route n i, high, does) joins,
            record {
              sound = j.sound;
              order =
                  j.order
                  ∙ rw q.order
                      (sym (insert_sorted-right n i (inorder l) (inorder r) high split.before));
              grown = omega arith;
              bounded = omega arith;
            },
          )
    ]
