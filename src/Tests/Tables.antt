-- ===== src/Tests/Tables.antt =====
-- A trie with nested prefixes, and a hash table in which every key has the same first position.
use packet_classifier.Prelude.{
  ℕ, ◌≡◌, refl, true, false, ◌&&◌, none, some, List, [], ◌∷◌, arith, if◌then◌else◌,
}
use packet_classifier.Prelude.Int.{ℤ, pos}
use packet_classifier.Text.{Str, codes, same_text}
use packet_classifier.CompressedTrie
use packet_classifier.CompressedTrie.{TrieNode, new_node}
use packet_classifier.CompressedTrie.Dictionary.{Change, run, promised, stored}
use packet_classifier.CompressedTrie.Longest.{longest, lookup-run}
use packet_classifier.ConcurrentHash.{
  ConcurrentHashTable, new, lookup, insert, remove, positions, positions_from, insert_at, lookup_at,
  remove_at, resize, reinsert,
}
use packet_classifier.ConcurrentHash.Lookup.{
  IsValid, has_room, new-IsValid, insert-IsValid, lookup-insert,
}
use packet_classifier.ConcurrentHash.Remove.{is_some}
use packet_classifier.ConcurrentHash.Resize.{used, last_value, lookup-resize}
use packet_classifier.ConcurrentHash.Rehash.{resize-insert_all}
use packet_classifier.ConcurrentHash.History.{insert_all, remove-insert_all}
use packet_classifier.ConcurrentHash.Stranded.{remove_stranded}

abbrev changes : List Change
changes =
    Change.put (codes "10.") (pos 1)
    ∷ Change.put (codes "10.1.") (pos 2)
    ∷ Change.put (codes "10.1.1.") (pos 3)
    ∷ Change.drop (codes "10.1.1.")
    ∷ []

trie_program : Unit {0}
unfolding run promised stored CompressedTrie.insert CompressedTrie.remove CompressedTrie.lookup
    CompressedTrie.lookup_loop CompressedTrie.find_child CompressedTrie.set_child
trie_program = tt

routed : CompressedTrie.lookup (run new_node changes) (codes "10.1.1.7") ≡ pos 2
unfolding trie_program
routed = refl

lookup-run_example :
    CompressedTrie.lookup (run new_node changes) (codes "10.1.1.7")
    ≡ CompressedTrie.or_not_found (longest (promised (λ q. none) changes) (codes "10.1.1.7"))
lookup-run_example = lookup-run changes (codes "10.1.1.7")

abbrev zero_hash : Str → ℕ
zero_hash key = 0

abbrev full_of_a : ConcurrentHashTable
full_of_a = insert zero_hash (new 4) (codes "a") (pos 1)

abbrev both : ConcurrentHashTable
both = insert zero_hash full_of_a (codes "b") (pos 2)

abbrev without_a : ConcurrentHashTable
without_a = (remove zero_hash both (codes "a")).0

table_program : Unit {0}
unfolding new lookup insert remove positions positions_from insert_at lookup_at remove_at resize
    reinsert
table_program = tt

full_of_a-IsValid : IsValid full_of_a
full_of_a-IsValid = insert-IsValid zero_hash (new 4) (codes "a") (pos 1) (new-IsValid 4)

lookup-insert_example :
    lookup zero_hash (insert zero_hash full_of_a (codes "b") (pos 2)) (codes "b") ≡ (
      if has_room zero_hash full_of_a (codes "b") && same_text (codes "b") (codes "b")
      then some (pos 2)
      else lookup zero_hash full_of_a (codes "b"))
lookup-insert_example =
    lookup-insert zero_hash full_of_a (codes "b") (pos 2) (codes "b") full_of_a-IsValid

abbrev items : List (Str × ℤ)
items = (codes "a", pos 1) ∷ (codes "b", pos 2) ∷ (codes "a", pos 3) ∷ []

remove-insert_all_example :
    ((remove zero_hash (insert_all zero_hash (new 4) items) (codes "a")).1
      ≡ is_some (lookup zero_hash (insert_all zero_hash (new 4) items) (codes "a")))
    × (lookup zero_hash
          (remove zero_hash (insert_all zero_hash (new 4) items) (codes "a")).0
          (codes "b")
        ≡ (if same_text (codes "a") (codes "b")
            then none
            else lookup zero_hash (insert_all zero_hash (new 4) items) (codes "b")))
remove-insert_all_example = remove-insert_all zero_hash 4 items (codes "a") (codes "b")

abbrev rest : List (Str × ℤ)
rest = (codes "b", pos 2) ∷ (codes "a", pos 3) ∷ []

remove_stranded_example :
    let t = insert_all zero_hash (new 4) ((codes "a", pos 1) ∷ rest) in
    let t' = (remove zero_hash t (codes "a")).0 in
    ((remove zero_hash t (codes "a")).1 ≡ true)
    × (lookup zero_hash t' (codes "b") ≡ some (pos 2))
    × ((remove zero_hash t' (codes "b")).1 ≡ false)
    × (lookup zero_hash (remove zero_hash t' (codes "b")).0 (codes "b") ≡ some (pos 2))
remove_stranded_example =
    remove_stranded zero_hash 4 rest (codes "a") (pos 1) (codes "b") (pos 2) refl refl
      (unfold table_program insert_all in refl)

abbrev stale : ConcurrentHashTable
stale = insert zero_hash without_a (codes "b") (pos 3)

-- `b` was set to 3 beside an older copy, which is the later one in the table.
stale_before : lookup zero_hash stale (codes "b") ≡ some (pos 3)
unfolding table_program
stale_before = refl

stale_after : last_value stale.table (codes "b") none ≡ some (pos 2)
unfolding table_program
stale_after = refl

lookup-resize_example :
    (t' : ConcurrentHashTable) × (resize zero_hash stale 3 ≡ some t')
    × (t'.capacity ≡ 3)
    × (lookup zero_hash t' (codes "b") ≡ last_value stale.table (codes "b") none)
lookup-resize_example =
    lookup-resize zero_hash stale 3 (codes "b") (omega arith)
      (unfold table_program in (omega arith))

abbrev filled : ConcurrentHashTable
filled = insert_all zero_hash (new 4) items

two_used : used filled.table ≡ 2
unfolding table_program insert_all
two_used = refl

resize-insert_all_example :
    (t' : ConcurrentHashTable) × (resize zero_hash filled 2 ≡ some t')
    × (lookup zero_hash t' (codes "a") ≡ lookup zero_hash filled (codes "a"))
resize-insert_all_example =
    resize-insert_all zero_hash 4 items 2 (codes "a") (omega arith) (rw two_used (omega arith))
