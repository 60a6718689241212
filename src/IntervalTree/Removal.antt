-- ===== src/IntervalTree/Removal.antt =====
-- The trees that the cases of a removal join, each beside the list without the target.
use mathlib.Core.List.{append-nil}
use packet_classifier.Prelude.{
  ℕ, ◌+◌, max, ◌≤◌, ◌≡◌, ◌∙◌, sym, true, false, List, ◌∷◌, [], arith, All, All-map,
}
use packet_classifier.IntervalTree.{Interval, Tree, leaf, node, height, less, same}
use packet_classifier.IntervalTree.Shape.{inorder, IsSound, Joins}
use packet_classifier.IntervalTree.Order.{
  IsOrdered, IsStrict, erase, Split, Ordered-Split, join-IsOrdered, All-append, All-append_join,
  less-same, greater-same, less_trans, same_refl, erase-append, erase-left, less_trans_left,
  erase_here, erase_unequal, less_irrefl,
}

pub record Removed (target : Interval) (t t' : Tree) : Type 1 where
  pub sound : IsSound t'
  pub shrunk : height t ≤ height t' + 1
  pub bounded : height t' ≤ height t
  pub kept : (P : Interval → Type 0) → All P (inorder t) → All P (inorder t')
  pub ordered : IsOrdered (inorder t')
  pub exact : IsStrict (inorder t) → inorder t' ≡ erase target (inorder t)

-- The order of the parts of a node.
abbrev pub Parts : Interval → Tree → Tree → Type 0
Parts i l r = Split (λ a b. less b a ≡ false) i (inorder l) (inorder r)

module _ (target i : Interval) (l r : Tree) (sl : IsSound l) (sr : IsSound r)
    (parts : Parts i l r) where
  -- The tree that joins what is left of the left subtree with the rest.
  pub remove_left :
      (l' t : Tree)
      → Joins i l' r t
      → Removed target l l'
      → less target i ≡ true
      → (m : _) (h : ℕ) → h ≡ 1 + max (height l) (height r)
      → height l ≤ height r + 1
      → height r ≤ height l + 1
      → Removed target (node i m h l r) t
  unfolding inorder
  remove_left l' t j q low m h e hl hr =
      let shrunk = q.shrunk in
      let bounded = q.bounded in
      record {
        sound = j.sound;
        shrunk = omega arith;
        bounded = omega arith;
        kept = λ P all.
            let (x, y) = All-append P (inorder l) (i ∷ inorder r) all in
            rw j.order (All-append_join P (inorder l') (i ∷ inorder r) (q.kept P x) y);
        ordered = rw j.order (
            join-IsOrdered i (inorder l') (inorder r) q.ordered parts.right
              (q.kept (λ x. less i x ≡ false) parts.before) parts.after);
        exact = λ strict.
            let s = Ordered-Split (λ a b. less a b ≡ true) i (inorder l) (inorder r) strict in
            j.order
            ∙ rw (q.exact s.left) (
                sym (
                  erase-left target (inorder l) (i ∷ inorder r) (
                    greater-same i target low,
                    All-map (λ y gt. greater-same y target (less_trans target i y low gt))
                        (inorder r) s.after,
                  )));
      }

  pub remove_right :
      (r' t : Tree)
      → Joins i l r' t
      → Removed target r r'
      → less i target ≡ true
      → (m : _) (h : ℕ) → h ≡ 1 + max (height l) (height r)
      → height l ≤ height r + 1
      → height r ≤ height l + 1
      → Removed target (node i m h l r) t
  unfolding inorder erase
  remove_right r' t j q high m h e hl hr =
      let shrunk = q.shrunk in
      let bounded = q.bounded in
      record {
        sound = j.sound;
        shrunk = omega arith;
        bounded = omega arith;
        kept = λ P all.
            let (x, y) = All-append P (inorder l) (i ∷ inorder r) all in
            rw j.order (All-append_join P (inorder l) (i ∷ inorder r') x (y.0, q.kept P y.1));
        ordered = rw j.order (
            join-IsOrdered i (inorder l) (inorder r') parts.left q.ordered parts.before
              (q.kept (λ y. less y i ≡ false) parts.after));
        exact = λ strict.
            let s = Ordered-Split (λ a b. less a b ≡ true) i (inorder l) (inorder r) strict in
            j.order
            ∙ rw (q.exact s.right) (
                sym (
                  erase-append target (inorder l) (i ∷ inorder r) (
                    All-map (λ x lt. less-same x target (less_trans x i target lt high)) (inorder l)
                      s.before)
                  ∙ rw (less-same i target high)));
      }

  -- The successor takes the place of the target and is removed from the right subtree.
  pub remove_both :
      (s : Interval) (rest : List Interval) (r' t : Tree)
      → inorder r ≡ s ∷ rest
      → Joins s l r' t
      → Removed s r r'
      → same i target ≡ true
      → (m : _) (h : ℕ) → h ≡ 1 + max (height l) (height r)
      → height l ≤ height r + 1
      → height r ≤ height l + 1
      → Removed target (node i m h l r) t
  unfolding inorder erase
  remove_both s rest r' t first j q here m h e hl hr =
      let shrunk = q.shrunk in
      let bounded = q.bounded in
      let after = rw first at parts.after in
      let right = rw first at parts.right in
      record {
        sound = j.sound;
        shrunk = omega arith;
        bounded = omega arith;
        kept = λ P all.
            let (x, y) = All-append P (inorder l) (i ∷ inorder r) all in
            rw j.order (
              All-append_join P (inorder l) (s ∷ inorder r') x ((rw first at y.1).0, q.kept P y.1));
        ordered = rw j.order (
            join-IsOrdered s (inorder l) (inorder r') parts.left q.ordered
              (All-map (λ x h'. less_trans_left s i x after.0 h') (inorder l) parts.before)
              (q.kept (λ y. less y s ≡ false) (rw first (less_irrefl s, right.0))));
        exact = λ strict.
            let sides = Ordered-Split (λ a b. less a b ≡ true) i (inorder l) (inorder r) strict in
            j.order
            ∙ rw (q.exact sides.right) (
                rw (first, same_refl s)
                  (rw (← first) (sym (erase_here target i (inorder l) (inorder r) strict here))));
      }

  -- The range of the node is that of the target and its id is not: nothing is removed.
  pub remove_none :
      (t : Tree)
      → Joins i l r t
      → less target i ≡ false
      → less i target ≡ false
      → same i target ≡ false
      → (m : _) (h : ℕ) → h ≡ 1 + max (height l) (height r)
      → height l ≤ height r + 1
      → height r ≤ height l + 1
      → Removed target (node i m h l r) t
  unfolding inorder
  remove_none t j p q other m h e hl hr = record {
    sound = j.sound;
    shrunk = omega arith;
    bounded = omega arith;
    kept = λ P all. rw j.order all;
    ordered =
        rw j.order (
          join-IsOrdered i (inorder l) (inorder r) parts.left parts.right parts.before parts.after);
    exact =
        λ strict. j.order ∙ sym (erase_unequal target i (inorder l) (inorder r) strict p q other);
  }

-- A node with one child, or none, gives way to it.
pub remove_right_only :
    (target i : Interval) (m : _) (h : ℕ) (r : Tree)
    → IsSound (node i m h leaf r)
    → IsOrdered (inorder (node i m h leaf r))
    → same i target ≡ true
    → Removed target (node i m h leaf r) r
unfolding inorder erase
remove_right_only target i m h r s o here = record {
  sound = s.5;
  shrunk = omega arith;
  bounded = omega arith;
  kept = λ P all. all.1;
  ordered = o.1;
  exact = λ strict. rw here;
}

pub remove_left_only :
    (target i : Interval) (m : _) (h : ℕ) (l : Tree)
    → IsSound (node i m h l leaf)
    → IsOrdered (inorder (node i m h l leaf))
    → same i target ≡ true
    → Removed target (node i m h l leaf) l
unfolding inorder
remove_left_only target i m h l s o here = record {
  sound = s.4;
  shrunk = omega arith;
  bounded = omega arith;
  kept = λ P all. (All-append P (inorder l) (i ∷ []) all).0;
  ordered = (Ordered-Split (λ a b. less b a ≡ false) i (inorder l) [] o).left;
  exact = λ strict. sym (erase_here target i (inorder l) [] strict here ∙ append-nil (inorder l));
}
