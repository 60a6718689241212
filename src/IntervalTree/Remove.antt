-- ===== src/IntervalTree/Remove.antt =====
-- `removeRecursive` of src/data_structures/interval_tree.cpp on a balanced tree in order.
use packet_classifier.Prelude.{
  ℕ, ◌≡◌, refl, true, false, List, ◌++◌, ◌∷◌, some, arith, inl, inr, ◌>>=◌, Bool-cases,
}
use packet_classifier.IntervalTree.{
  Interval, Tree, leaf, node, less, same, settle, find_min, remove_recursive, unlink,
}
use packet_classifier.IntervalTree.Shape.{inorder, IsSound}
use packet_classifier.IntervalTree.Settle.{settle-Joins}
use packet_classifier.IntervalTree.Order.{IsOrdered, erase, Ordered-Split}
use packet_classifier.IntervalTree.Removal.{
  Removed, Parts, remove_left, remove_right, remove_both, remove_none, remove_right_only,
  remove_left_only,
}

abbrev Removes : Interval → Tree → Type 1
Removes target t = (t' : Tree) × (remove_recursive target t ≡ some t') × Removed target t t'

-- `find_min` finds the first interval.
find_min-inorder :
    (i : Interval) (l r : Tree)
    → (s : Interval) × (rest : List Interval) × ((m : _) (h : ℕ)
        → find_min (node i m h l r) ≡ some s)
      × (inorder l ++ i ∷ inorder r ≡ s ∷ rest)
unfolding find_min inorder
find_min-inorder i leaf r = (i, inorder r, λ m h. refl, refl)
find_min-inorder i (node j n k a b) r =
    let (s, rest, found, first) = find_min-inorder j a b in
    (s, rest ++ i ∷ inorder r, λ m h. found n k, rw first)

-- The node that was looked for, in its three cases.
remove_here :
    (target i : Interval) (m : _) (h : ℕ) (l r : Tree)
    → IsSound (node i m h l r)
    → IsOrdered (inorder (node i m h l r))
    → same i target ≡ true
    → ((s : Interval) → Removes s r)
    → (t : Tree) × (unlink l r (do s ← find_min r; r' ← remove_recursive s r; settle s l r')
        ≡ some t)
      × Removed target (node i m h l r) t
remove_here target i m h leaf r s o here ih = (r, refl, remove_right_only target i m h r s o here)
remove_here target i m h (node j n k a b) leaf s o here ih =
    (node j n k a b, refl, remove_left_only target i m h (node j n k a b) s o here)
remove_here target i m h (node j n k a b) (node j' n' k' a' b') s o here ih =
    let l = node j n k a b in
    let r = node j' n' k' a' b' in
    let parts : Parts i l r =
      unfold inorder in Ordered-Split (λ a b. less b a ≡ false) i (inorder l) (inorder r) o in
    let (q, rest, found, first) = find_min-inorder j' a' b' in
    let (r', does, gone) = ih q in
    let sound = gone.sound in
    let shrunk = gone.shrunk in
    let bounded = gone.bounded in
    let (t, joins, jn) = settle-Joins q l r' s.4 sound (omega arith) (omega arith) in
    (
      t,
      rw (found n' k', does) joins,
      remove_both target i l r s.4 s.5 parts q rest r' t (unfold inorder in first) jn gone here m h
          s.1 s.2 s.3,
    )

-- A removal succeeds on every balanced tree in order.
pub remove_recursive-Removed :
    (target : Interval) (t : Tree) → IsSound t → IsOrdered (inorder t) → Removes target t
unfolding remove_recursive
remove_recursive-Removed target leaf s o = (
  leaf,
  refl,
  record {
    sound = tt;
    shrunk = omega arith;
    bounded = omega arith;
    kept = λ P all. all;
    ordered = o;
    exact = λ strict. unfold inorder erase in refl;
  },
)
remove_recursive-Removed target (node i m h l r) s o =
    let parts : Parts i l r =
      unfold inorder in Ordered-Split (λ a b. less b a ≡ false) i (inorder l) (inorder r) o in
    elim (Bool-cases (less target i)) [
      | inl low ↦
          let (l', does, q) = remove_recursive-Removed target l s.4 parts.left in
          let sound = q.sound in
          let shrunk = q.shrunk in
          let bounded = q.bounded in
          let (t, joins, j) = settle-Joins i l' r sound s.5 (omega arith) (omega arith) in
          (
            t,
            rw (low, does) joins,
            remove_left target i l r s.4 s.5 parts l' t j q low m h s.1 s.2 s.3,
          )
      | inr not_low ↦ elim (Bool-cases (less i target)) [
        | inl high ↦
            let (r', does, q) = remove_recursive-Removed target r s.5 parts.right in
            let sound = q.sound in
            let shrunk = q.shrunk in
            let bounded = q.bounded in
            let (t, joins, j) = settle-Joins i l r' s.4 sound (omega arith) (omega arith) in
            (
              t,
              rw (not_low, high, does) joins,
              remove_right target i l r s.4 s.5 parts r' t j q high m h s.1 s.2 s.3,
            )
        | inr not_high ↦ elim (Bool-cases (same i target)) [
          | inl here ↦
              let (t, does, gone) =
                remove_here target i m h l r s o here
                  (λ q. remove_recursive-Removed q r s.5 parts.right) in
              (t, rw (not_low, not_high, here) does, gone)
          | inr other ↦
              let (t, joins, j) = settle-Joins i l r s.4 s.5 (omega arith) (omega arith) in
              (
                t,
                rw (not_low, not_high, other) joins,
                remove_none target i l r s.4 s.5 parts t j not_low not_high other m h s.1 s.2 s.3,
              )
        ]
      ]
    ]
