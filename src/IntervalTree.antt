-- ===== src/IntervalTree.antt =====
-- src/data_structures/interval_tree.cpp and its header. A null pointer is `leaf`; `none` is the
-- undefined behaviour of a read through it. An `int` is ℤ: bounds are compared and never computed
-- with, and a height is at most the number of nodes.
pub mod Shape
pub mod Balance
pub mod Settle
pub mod Order
pub mod Insert
pub mod Removal
pub mod Remove
pub mod Query
pub mod Range
pub mod History
pub mod Depth
use packet_classifier.Prelude.{
  ℕ, ◌+◌, max, Bool, true, false, ◌&&◌, ◌||◌, List, [], ◌∷◌, ◌++◌, Option, none, some,
  if◌then◌else◌, ◌>>=◌,
}
use packet_classifier.Prelude.Int.{ℤ, pos, negsuc, sub_ℕ, ltb_ℤ, leb_ℤ, ◌==ℤ◌}

pub record Interval : Type 0 where
  pub low : ℤ
  pub high : ℤ
  pub data_id : ℤ

-- `operator<`
abbrev pub less : Interval → Interval → Bool
less a b = ltb_ℤ a.low b.low || (a.low ==ℤ b.low && ltb_ℤ a.high b.high)

-- A node has its interval, `max_high`, `height` and children.
pub data Tree : Type 0 where
  leaf : Tree
  node : Interval → ℤ → ℕ → Tree → Tree → Tree

abbrev pub max_ℤ : ℤ → ℤ → ℤ
max_ℤ a b = if ltb_ℤ a b then b else a

-- `getHeight`
abbrev pub height : Tree → ℕ
height leaf = 0
height (node i m h l r) = h

abbrev pub with_child : ℤ → Tree → ℤ
with_child m leaf = m
with_child m (node i n h l r) = max_ℤ m n

-- The value that `updateMaxHigh` stores.
abbrev pub max_high_of : Interval → Tree → Tree → ℤ
max_high_of i l r = with_child (with_child i.high l) r

-- `updateNodeHeight` and `updateMaxHigh`
abbrev pub update_node_height : Tree → Tree
update_node_height leaf = leaf
update_node_height (node i m h l r) = node i m (1 + max (height l) (height r)) l r

abbrev pub update_max_high : Tree → Tree
update_max_high leaf = leaf
update_max_high (node i m h l r) = node i (max_high_of i l r) h l r

abbrev pub balance_factor : Tree → ℤ
balance_factor leaf = pos 0
balance_factor (node i m h l r) = sub_ℕ (height l) (height r)

unfoldable pub rotate_right : Tree → Option Tree
rotate_right leaf = none
rotate_right (node i m h leaf c) = none
rotate_right (node i m h (node j n k a b) c) =
    let y = update_max_high (update_node_height (node i m h b c)) in
    some (update_max_high (update_node_height (node j n k a y)))

unfoldable pub rotate_left : Tree → Option Tree
rotate_left leaf = none
rotate_left (node i m h a leaf) = none
rotate_left (node i m h a (node j n k b c)) =
    let x = update_max_high (update_node_height (node i m h a b)) in
    some (update_max_high (update_node_height (node j n k x c)))

-- The four cases of the balancing, which end `insertRecursive` and `removeRecursive`, at the node
-- with the given fields.
unfoldable pub rebalance : Interval → ℤ → ℕ → Tree → Tree → Option Tree
unfolding rotate_right rotate_left
rebalance i m h l r =
    let balance = sub_ℕ (height l) (height r) in
    if ltb_ℤ (pos 1) balance && leb_ℤ (pos 0) (balance_factor l)
    then rotate_right (node i m h l r)
    else if ltb_ℤ (pos 1) balance && ltb_ℤ (balance_factor l) (pos 0)
    then (do l' ← rotate_left l; rotate_right (node i m h l' r))
    else if ltb_ℤ balance (negsuc 0) && leb_ℤ (balance_factor r) (pos 0)
    then rotate_left (node i m h l r)
    else if ltb_ℤ balance (negsuc 0) && ltb_ℤ (pos 0) (balance_factor r)
    then (do r' ← rotate_right r; rotate_left (node i m h l r'))
    else some (node i m h l r)

-- The update of the height and of `max_high`, then the balancing.
unfoldable pub settle : Interval → Tree → Tree → Option Tree
unfolding rebalance
settle i l r = rebalance i (max_high_of i l r) (1 + max (height l) (height r)) l r

unfoldable pub insert_recursive : Interval → Tree → Option Tree
insert_recursive n leaf = some (node n n.high 1 leaf leaf)
insert_recursive n (node i m h l r) =
    let to_left = (do l' ← insert_recursive n l; settle i l' r) in
    let to_right = (do r' ← insert_recursive n r; settle i l r') in
    if ltb_ℤ n.low i.low
    then to_left
    else if ltb_ℤ i.low n.low
    then to_right
    else if ltb_ℤ n.high i.high
    then to_left
    else to_right

-- The class: its one field is the root.
abbrev pub IntervalTree : Type 0
IntervalTree = Tree

abbrev pub new : IntervalTree
new = leaf

-- An interval whose ends are out of order is not inserted.
unfoldable pub insert : IntervalTree → ℤ → ℤ → ℤ → Option IntervalTree
insert root low high data_id =
    if ltb_ℤ high low
    then some root
    else insert_recursive (record { low = low; high = high; data_id = data_id }) root

unfoldable pub insert_interval : IntervalTree → Interval → Option IntervalTree
insert_interval root n = if ltb_ℤ n.high n.low then some root else insert_recursive n root

-- The interval at the leftmost node.
unfoldable pub find_min : Tree → Option Interval
find_min leaf = none
find_min (node i m h leaf r) = some i
find_min (node i m h (node j n k a b) r) = find_min (node j n k a b)

abbrev pub same : Interval → Interval → Bool
same a b = a.low ==ℤ b.low && (a.high ==ℤ b.high && a.data_id ==ℤ b.data_id)

-- The removal at the node that was looked for: `below` is the removal, from its right subtree, of
-- the interval found there.
abbrev pub unlink : Tree → Tree → Option Tree → Option Tree
unlink leaf r below = some r
unlink (node j n k a b) leaf below = some (node j n k a b)
unlink (node j n k a b) (node j' n' k' a' b') below = below

unfoldable pub remove_recursive : Interval → Tree → Option Tree
unfolding find_min
remove_recursive target leaf = some leaf
remove_recursive target (node i m h l r) =
    let to_left = (do l' ← remove_recursive target l; settle i l' r) in
    let to_right = (do r' ← remove_recursive target r; settle i l r') in
    let below = (do s ← find_min r; r' ← remove_recursive s r; settle s l r') in
    if less target i
    then to_left
    else if less i target
    then to_right
    else if same i target
    then unlink l r below
    else settle i l r

-- `remove` answers `true` whatever it finds.
unfoldable pub remove : IntervalTree → ℤ → ℤ → ℤ → Option (IntervalTree × Bool)
remove root low high data_id = do
  t ← remove_recursive (record { low = low; high = high; data_id = data_id }) root
  some (t, true)

unfoldable pub remove_interval : IntervalTree → Interval → Option (IntervalTree × Bool)
remove_interval root target = do t ← remove_recursive target root; some (t, true)

abbrev pub one_if : Bool → Interval → List Interval
one_if b i = if b then i ∷ [] else []

-- `node && node->max_high >= bound`
abbrev pub reaches : Tree → ℤ → Bool
reaches leaf bound = false
reaches (node i m h l r) bound = leb_ℤ bound m

abbrev pub is_node : Tree → Bool
is_node leaf = false
is_node (node i m h l r) = true

-- The intervals that the search pushes to its result, in order.
unfoldable pub find_point : Tree → ℤ → List Interval
find_point leaf point = []
find_point (node i m h l r) point =
    let in_left = find_point l point in
    let in_right = find_point r point in
    one_if (leb_ℤ i.low point && leb_ℤ point i.high) i
    ++ ((if reaches l point then in_left else [])
        ++ (if is_node r && leb_ℤ i.low point
            then in_right
            else if reaches r point && ltb_ℤ i.high point
            then in_right
            else []))

unfoldable pub find_range : Tree → Interval → List Interval
find_range leaf query = []
find_range (node i m h l r) query =
    let in_left = find_range l query in
    let in_right = find_range r query in
    one_if (leb_ℤ query.low i.high && leb_ℤ i.low query.high) i
    ++ ((if reaches l query.low then in_left else [])
        ++ (if is_node r && leb_ℤ i.low query.high then in_right else []))

-- `findOverlappingIntervals`, for a point, for two ends and for an interval.
unfoldable pub find_overlapping_point : IntervalTree → ℤ → List Interval
find_overlapping_point root point = find_point root point

unfoldable pub find_overlapping : IntervalTree → Interval → List Interval
find_overlapping root query = if ltb_ℤ query.high query.low then [] else find_range root query

unfoldable pub find_overlapping_ends : IntervalTree → ℤ → ℤ → List Interval
find_overlapping_ends root low high =
    if ltb_ℤ high low
    then []
    else find_range root (record { low = low; high = high; data_id = pos 0 })
