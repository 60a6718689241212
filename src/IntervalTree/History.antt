-- ===== src/IntervalTree/History.antt =====
-- Sequences of insertions and removals from the empty tree.
use packet_classifier.Prelude.{
  ℕ, ◌≡◌, refl, true, false, List, [], ◌∷◌, Option, some, arith, Bool-cases, inl, inr,
  if◌then◌else◌, ◌>>=◌,
}
use packet_classifier.Prelude.Int.{ℤ, ltb_ℤ}
use packet_classifier.IntervalTree.{
  Interval, Tree, leaf, node, less, same, insert_interval, remove_interval, remove_recursive,
}
use packet_classifier.IntervalTree.Shape.{inorder, IsSound}
use packet_classifier.IntervalTree.Settle.{settle-Joins}
use packet_classifier.IntervalTree.Order.{
  IsOrdered, IsStrict, insert_sorted, erase, insert_sorted-IsOrdered,
}
use packet_classifier.IntervalTree.Insert.{insert_recursive-Inserted}
use packet_classifier.IntervalTree.Remove.{remove_recursive-Removed}

pub data Edit : Type 0 where
  put drop : Interval → Edit

unfoldable pub apply : Tree → Edit → Option Tree
apply t (put i) = insert_interval t i
apply t (drop i) = do r ← remove_interval t i; some r.0

unfoldable pub run : Tree → List Edit → Option Tree
run t [] = some t
run t (e ∷ es) = do t' ← apply t e; run t' es

-- What an edit does to the list of the intervals, where no two have the same ends.
abbrev pub edited : List Interval → Edit → List Interval
edited xs (put i) = if ltb_ℤ i.high i.low then xs else insert_sorted i xs
edited xs (drop i) = erase i xs

abbrev pub edited_all : List Interval → List Edit → List Interval
edited_all xs [] = xs
edited_all xs (e ∷ es) = edited_all (edited xs e) es

-- No two stored intervals ever have the same ends.
abbrev pub Distinct : List Interval → List Edit → Type 0
Distinct xs [] = IsStrict xs
Distinct xs (e ∷ es) = IsStrict xs × Distinct (edited xs e) es

pub record IsValid (t : Tree) : Type 0 where
  pub sound : IsSound t
  pub ordered : IsOrdered (inorder t)

-- The tree after one edit.
abbrev Edited : Tree → Edit → Type 0
Edited t e =
    (t' : Tree) × (apply t e ≡ some t')
    × IsValid t'
    × (IsStrict (inorder t) → inorder t' ≡ edited (inorder t) e)

apply-Edited : (t : Tree) (e : Edit) → IsValid t → Edited t e
unfolding apply insert_interval remove_interval
apply-Edited t (put i) v = elim (Bool-cases (ltb_ℤ i.high i.low)) [
  | inl crossed ↦ (t, rw crossed, v, λ strict. rw crossed)
  | inr straight ↦
      let (t', does, q) = insert_recursive-Inserted i t v.sound v.ordered in
      (
        t',
        rw straight does,
        record {
          sound = q.sound;
          ordered = rw q.order (insert_sorted-IsOrdered i (inorder t) v.ordered);
        },
        λ strict. rw straight q.order,
      )
]
apply-Edited t (drop i) v =
    let (t', does, q) = remove_recursive-Removed i t v.sound v.ordered in
    (t', rw does, record { sound = q.sound; ordered = q.ordered }, q.exact)

leaf-IsValid : IsValid leaf
unfolding inorder
leaf-IsValid = record { sound = tt; ordered = tt }

run-IsValid :
    (t : Tree) (es : List Edit)
    → IsValid t
    → (t' : Tree) × (run t es ≡ some t')
      × IsValid t'
      × (Distinct (inorder t) es → inorder t' ≡ edited_all (inorder t) es)
unfolding run
run-IsValid t [] v = (t, refl, v, λ d. refl)
run-IsValid t (e ∷ es) v =
    let (t', does, v', exact) = apply-Edited t e v in
    let (last, rest, w, same_list) = run-IsValid t' es v' in
    (last, rw (does, ◌>>=◌) rest, w, λ d. rw (exact d.0) at (same_list (rw (exact d.0) d.1)))

-- No insertion or removal reads through a null pointer, whatever the sequence, and the tree stays
-- balanced and in order.
pub run-leaf-IsValid : (es : List Edit) → (t : Tree) × (run leaf es ≡ some t) × IsValid t
run-leaf-IsValid es = let (t, does, v, exact) = run-IsValid leaf es leaf-IsValid in (t, does, v)

-- Where no two stored intervals ever have the same ends, the tree holds what the list holds after
-- the same edits, in the same order.
pub run-leaf-edited_all :
    (es : List Edit)
    → Distinct [] es
    → (t : Tree) × (run leaf es ≡ some t) × (inorder t ≡ edited_all [] es)
run-leaf-edited_all es d =
    let (t, does, v, exact) = run-IsValid leaf es leaf-IsValid in
    (t, does, unfold inorder in exact (unfold inorder in d))

-- A removal reports success and removes nothing where the root has the ends of the target and
-- another id, whether or not the target is stored below.
pub remove_interval_shadowed :
    (target i : Interval) (m : ℤ) (h : ℕ) (l r : Tree)
    → IsValid (node i m h l r)
    → less target i ≡ false
    → less i target ≡ false
    → same i target ≡ false
    → (t : Tree) × (remove_interval (node i m h l r) target ≡ some (t, true))
      × (inorder t ≡ inorder (node i m h l r))
unfolding remove_interval remove_recursive inorder
remove_interval_shadowed target i m h l r v p q other =
    let s : IsSound (node i m h l r) = v.sound in
    let (t, joins, j) = settle-Joins i l r s.4 s.5 (omega arith) (omega arith) in
    (t, rw (p, q, other, joins), j.order)
