-- ===== src/IntervalTree/Depth.antt =====
-- The height of the tree of src/data_structures/interval_tree.cpp against its size.
use native.Mathlib.Nat.{pow-suc}
use packet_classifier.Prelude.{
  ℕ, zero, suc, ◌+◌, ◌*◌, ◌^◌, ◌≤◌, ◌≡◌, List, ◌∷◌, some, arith, length, length-append,
}
use packet_classifier.IntervalTree.{Tree, leaf, node, height}
use packet_classifier.IntervalTree.Shape.{inorder, IsSound}
use packet_classifier.IntervalTree.History.{Edit, run, run-leaf-IsValid}

height-le : (k : ℕ) (t : Tree) → IsSound t → 2 * k ≤ height t → 2 ^ k ≤ length (inorder t) + 1
unfolding inorder
height-le zero t s h = omega arith
height-le (suc k) leaf s h = absurd (omega arith)
height-le (suc k) (node i m h l r) s deep =
    let left = height-le k l s.4 (omega arith) in
    let right = height-le k r s.5 (omega arith) in
    let size = length-append (inorder l) (i ∷ inorder r) in rw (pow-suc 2 k) (omega arith)

-- After any insertions and removals, a tree of height 2k or more has at least 2 ^ k - 1 intervals.
pub run-height :
    (es : List Edit) (t : Tree) (k : ℕ)
    → run leaf es ≡ some t
    → 2 * k ≤ height t
    → 2 ^ k ≤ length (inorder t) + 1
run-height es t k does h =
    let (t', does', v) = run-leaf-IsValid es in
    let same : t' ≡ t = cc in height-le k t (rw (← same) v.sound) h
