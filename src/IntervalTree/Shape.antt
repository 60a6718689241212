-- ===== src/IntervalTree/Shape.antt =====
-- The balance of the tree and its stored heights and `max_high`.
use packet_classifier.Prelude.{◌+◌, ◌≤◌, ◌≡◌, max, ◌⊎◌, List, [], ◌∷◌, ◌++◌}
use packet_classifier.IntervalTree.{Interval, Tree, leaf, node, height, max_high_of}

-- The intervals from left to right.
unfoldable pub inorder : Tree → List Interval
inorder leaf = []
inorder (node i m h l r) = inorder l ++ i ∷ inorder r

-- Every node stores what its children give, and their heights differ by one at most.
abbrev pub IsSound : Tree → Type 0
IsSound leaf = Unit {0}
IsSound (node i m h l r) =
    (m ≡ max_high_of i l r)
    × (h ≡ 1 + max (height l) (height r))
    × (height l ≤ height r + 1)
    × (height r ≤ height l + 1)
    × IsSound l
    × IsSound r

-- A balanced tree made of `l`, `i` and `r`, in this order, hardly lower than without rotations.
pub record Joins (i : Interval) (l r t : Tree) : Type 0 where
  pub sound : IsSound t
  pub order : inorder t ≡ inorder l ++ i ∷ inorder r
  pub lower : max (height l) (height r) ≤ height t
  pub upper : height t ≤ 1 + max (height l) (height r)
  pub level :
      (height t ≡ 1 + max (height l) (height r))
      ⊎ ((height l ≡ height r + 2) ⊎ (height r ≡ height l + 2))

-- A node with the values that are up to date.
abbrev pub build : Interval → Tree → Tree → Tree
build i l r = node i (max_high_of i l r) (1 + max (height l) (height r)) l r
