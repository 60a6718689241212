-- ===== src/IntervalTree/Settle.antt =====
-- The balancing at the end of `insertRecursive` and `removeRecursive`, case by case.
use native.Mathlib.Decide.{dec_lt}
use packet_classifier.Prelude.{list_laws, ℕ, ◌+◌, ◌≤◌, ◌<◌, ◌≡◌, refl, inl, some, arith}
use packet_classifier.Prelude.Int.{ℤ}
use packet_classifier.IntervalTree.{Interval, Tree, leaf, node, height, settle}
use packet_classifier.IntervalTree.Shape.{inorder, IsSound, Joins, build}
use packet_classifier.IntervalTree.Balance.{
  left_heavy, not_left_heavy, right_heavy, not_right_heavy, leans_left, leans_right, not_leans_left,
  not_leans_right, below_zero, above_zero,
}

abbrev Settles : Interval → Tree → Tree → Type 0
Settles i l r = (t : Tree) × (settle i l r ≡ some t) × Joins i l r t

settle_level :
    (i : Interval) (l r : Tree)
    → IsSound l
    → IsSound r
    → height l ≤ height r + 1
    → height r ≤ height l + 1
    → Settles i l r
unfolding settle
settle_level i l r sl sr hl hr = (
  build i l r,
  rw (not_left_heavy (height l) (height r) hl, not_right_heavy (height l) (height r) hr),
  record {
    sound = (refl, refl, hl, hr, sl, sr);
    order = unfold inorder in refl;
    lower = omega arith;
    upper = omega arith;
    level = inl refl;
  },
)

-- The left subtree is two levels higher, and its own left subtree is not lower than its right one.
settle_left_left :
    (i j : Interval) (n : ℤ) (k : ℕ) (a b r : Tree)
    → IsSound (node j n k a b)
    → IsSound r
    → k ≡ height r + 2
    → height b ≤ height a
    → Settles i (node j n k a b) r
unfolding settle inorder
settle_left_left i j n k a b r sl sr high lean = (
  build j a (build i b r),
  rw (left_heavy k (height r) (omega arith), leans_left (height a) (height b) lean) refl,
  record {
    sound = (
      refl,
      refl,
      omega arith,
      omega arith,
      sl.4,
      (refl, refl, omega arith, omega arith, sl.5, sr),
    );
    order = simp list_laws;
    lower = omega arith;
    upper = omega arith;
    level = omega arith;
  },
)

settle_left_right :
    (i j : Interval) (n : ℤ) (k : ℕ) (a b r : Tree)
    → IsSound (node j n k a b)
    → IsSound r
    → k ≡ height r + 2
    → height a < height b
    → Settles i (node j n k a b) r
unfolding settle inorder
settle_left_right i j n k a leaf r sl sr high lean = absurd (omega arith)
settle_left_right i j n k a (node o p q b c) r sl sr high lean = (
  build o (build j a b) (build i c r),
  rw
      (
        left_heavy k (height r) (omega arith),
        not_leans_left (height a) q lean,
        below_zero (height a) q lean,
      )
      refl,
  record {
    sound = (
      refl,
      refl,
      omega arith,
      omega arith,
      (refl, refl, omega arith, omega arith, sl.4, sl.5.4),
      (refl, refl, omega arith, omega arith, sl.5.5, sr),
    );
    order = simp list_laws;
    lower = omega arith;
    upper = omega arith;
    level = omega arith;
  },
)

settle_right_right :
    (i j : Interval) (n : ℤ) (k : ℕ) (l a b : Tree)
    → IsSound l
    → IsSound (node j n k a b)
    → k ≡ height l + 2
    → height a ≤ height b
    → Settles i l (node j n k a b)
unfolding settle inorder
settle_right_right i j n k l a b sl sr high lean = (
  build j (build i l a) b,
  rw
      (
        not_left_heavy (height l) k (omega arith),
        right_heavy (height l) k (omega arith),
        leans_right (height a) (height b) lean,
      )
      refl,
  record {
    sound = (
      refl,
      refl,
      omega arith,
      omega arith,
      (refl, refl, omega arith, omega arith, sl, sr.4),
      sr.5,
    );
    order = simp list_laws;
    lower = omega arith;
    upper = omega arith;
    level = omega arith;
  },
)

settle_right_left :
    (i j : Interval) (n : ℤ) (k : ℕ) (l a b : Tree)
    → IsSound l
    → IsSound (node j n k a b)
    → k ≡ height l + 2
    → height b < height a
    → Settles i l (node j n k a b)
unfolding settle inorder
settle_right_left i j n k l leaf b sl sr high lean = absurd (omega arith)
settle_right_left i j n k l (node o p q a c) b sl sr high lean = (
  build o (build i l a) (build j c b),
  rw
      (
        not_left_heavy (height l) k (omega arith),
        right_heavy (height l) k (omega arith),
        not_leans_right q (height b) lean,
        above_zero q (height b) lean,
      )
      refl,
  record {
    sound = (
      refl,
      refl,
      omega arith,
      omega arith,
      (refl, refl, omega arith, omega arith, sl, sr.4.4),
      (refl, refl, omega arith, omega arith, sr.4.5, sr.5),
    );
    order = simp list_laws;
    lower = omega arith;
    upper = omega arith;
    level = omega arith;
  },
)

settle_left :
    (i : Interval) (l r : Tree) → IsSound l → IsSound r → height l ≡ height r + 2 → Settles i l r
settle_left i leaf r sl sr high = absurd (omega arith)
settle_left i (node j n k a b) r sl sr high = elim (dec_lt (height a) (height b)) [
  | yes lean ↦ settle_left_right i j n k a b r sl sr high lean
  | no lean ↦ settle_left_left i j n k a b r sl sr high (omega arith)
]

settle_right :
    (i : Interval) (l r : Tree) → IsSound l → IsSound r → height r ≡ height l + 2 → Settles i l r
settle_right i l leaf sl sr high = absurd (omega arith)
settle_right i l (node j n k a b) sl sr high = elim (dec_lt (height b) (height a)) [
  | yes lean ↦ settle_right_left i j n k l a b sl sr high lean
  | no lean ↦ settle_right_right i j n k l a b sl sr high (omega arith)
]

-- Where the heights differ by two at most, the step succeeds and joins the parts.
pub settle-Joins :
    (i : Interval) (l r : Tree)
    → IsSound l
    → IsSound r
    → height l ≤ height r + 2
    → height r ≤ height l + 2
    → (t : Tree) × (settle i l r ≡ some t) × Joins i l r t
settle-Joins i l r sl sr hl hr = elim (dec_lt (height r + 1) (height l)) [
  | yes high ↦ settle_left i l r sl sr (omega arith)
  | no low ↦ elim (dec_lt (height l + 1) (height r)) [
    | yes high ↦ settle_right i l r sl sr (omega arith)
    | no level ↦ settle_level i l r sl sr (omega arith) (omega arith)
  ]
]
