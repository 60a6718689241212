-- ===== src/Tests/Trees.antt =====
-- Insertions, removals and queries on small interval trees.
use mathlib.Core.List.{Perm}
use packet_classifier.IntervalTree.Depth.{run-height}
use packet_classifier.Prelude.{
  ◌+◌, ◌^◌, ◌≤◌, length, ◌≡◌, refl, true, some, List, [], ◌∷◌, arith, filter, if◌then◌else◌,
}
use packet_classifier.Prelude.Int.{pos, ltb_ℤ}
use packet_classifier.IntervalTree.{
  Interval, Tree, leaf, node, insert_interval, remove_interval, insert_recursive, settle,
  find_overlapping_point, find_overlapping, find_point,
}
use packet_classifier.IntervalTree.Shape.{inorder, IsSound}
use packet_classifier.IntervalTree.Order.{IsOrdered, insert_sorted, erase}
use packet_classifier.IntervalTree.Query.{covers, overlaps, find_overlapping_point-Perm}
use packet_classifier.IntervalTree.Range.{find_overlapping-Perm}
use packet_classifier.IntervalTree.History.{
  Edit, run, apply, edited_all, IsValid, run-leaf-IsValid, run-leaf-edited_all,
  remove_interval_shadowed,
}

abbrev a : Interval
a = record { low = pos 10; high = pos 20; data_id = pos 1 }

abbrev b : Interval
b = record { low = pos 15; high = pos 25; data_id = pos 2 }

abbrev c : Interval
c = record { low = pos 30; high = pos 40; data_id = pos 3 }

abbrev d : Interval
d = record { low = pos 5; high = pos 6; data_id = pos 4 }

abbrev edits : List Edit
edits =
    Edit.put a
    ∷ Edit.put b
    ∷ Edit.put c
    ∷ Edit.put d
    ∷ Edit.drop b
    ∷ Edit.put (record { low = pos 2; high = pos 1; data_id = pos 9 })
    ∷ []

abbrev ab : Tree
ab = node b (pos 25) 2 (node a (pos 20) 1 leaf leaf) leaf

program : Unit {0}
unfolding insert_recursive insert_interval remove_interval settle inorder insert_sorted erase run
    apply find_point find_overlapping_point find_overlapping filter
program = tt

-- The third interval makes the tree rotate.
rotated :
    run leaf (Edit.put a ∷ Edit.put b ∷ Edit.put c ∷ [])
    ≡ some (node b (pos 40) 2 (node a (pos 20) 1 leaf leaf) (node c (pos 40) 1 leaf leaf))
unfolding program
rotated = refl

ab-IsSound : IsSound ab
ab-IsSound =
    (refl, refl, omega arith, omega arith, (refl, refl, omega arith, omega arith, tt, tt), tt)

ab-IsOrdered : IsOrdered (inorder ab)
unfolding program
ab-IsOrdered = ((refl, tt), (tt, tt))

run-leaf-IsValid_example : (t : Tree) × (run leaf edits ≡ some t) × IsValid t
run-leaf-IsValid_example = run-leaf-IsValid edits

run-leaf-edited_all_example :
    (t : Tree) × (run leaf edits ≡ some t) × (inorder t ≡ edited_all [] edits)
run-leaf-edited_all_example = run-leaf-edited_all edits (unfold program in ground arith)

find_overlapping_point-Perm_example :
    Perm (find_overlapping_point ab (pos 18)) (filter (covers (pos 18)) (inorder ab))
find_overlapping_point-Perm_example =
    find_overlapping_point-Perm ab (pos 18) ab-IsSound ab-IsOrdered

find_overlapping-Perm_example :
    Perm
      (find_overlapping ab c)
      (if ltb_ℤ c.high c.low then [] else filter (overlaps c) (inorder ab))
find_overlapping-Perm_example = find_overlapping-Perm ab c ab-IsSound ab-IsOrdered

found : find_overlapping_point ab (pos 18) ≡ b ∷ a ∷ []
unfolding program
found = refl

abbrev b' : Interval
b' = record b { data_id = pos 7 }

remove_interval_shadowed_example :
    (t : Tree) × (remove_interval ab b' ≡ some (t, true)) × (inorder t ≡ inorder ab)
remove_interval_shadowed_example =
    remove_interval_shadowed b' b (pos 25) 2 (node a (pos 20) 1 leaf leaf) leaf
      (record { sound = ab-IsSound; ordered = ab-IsOrdered }) refl refl refl

run-height_example : 2 ^ 1 ≤ length (inorder ab) + 1
run-height_example =
    run-height (Edit.put b ∷ Edit.put a ∷ []) ab 1 (unfold program in refl) (omega arith)
