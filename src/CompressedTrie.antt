-- ===== src/CompressedTrie.antt =====
-- src/data_structures/compressed_trie.cpp and its header. The map from characters to children is a
-- list of pairs, the order of which the source never reads; a null child does not occur, since a
-- child is created when its key is.
pub mod Dictionary
pub mod Longest
use packet_classifier.Prelude.{
  ℕ, Bool, true, false, List, [], ◌∷◌, Option, none, some, ◌==◌, if◌then◌else◌,
}
use packet_classifier.Prelude.Int.{ℤ, negsuc}
use packet_classifier.Text.{Str}

mutual
  pub data TrieNode : Type 0 where
    trie_node : Children → ℤ → Bool → TrieNode

  pub data Children : Type 0 where
    no_children : Children
    child : ℕ → TrieNode → Children → Children

abbrev pub new_node : TrieNode
new_node = trie_node no_children (negsuc 0) false

abbrev pub children : TrieNode → Children
children (trie_node cs hop end) = cs

abbrev pub next_hop_info : TrieNode → ℤ
next_hop_info (trie_node cs hop end) = hop

abbrev pub is_end_of_prefix : TrieNode → Bool
is_end_of_prefix (trie_node cs hop end) = end

unfoldable pub find_child : ℕ → Children → Option TrieNode
find_child c no_children = none
find_child c (child d t cs) = if d == c then some t else find_child c cs

-- The child under a character replaced, or added.
unfoldable pub set_child : ℕ → TrieNode → Children → Children
set_child c t no_children = child c t no_children
set_child c t (child d u cs) = if d == c then child d t cs else child d u (set_child c t cs)

-- The child that the loop of `insert` goes on with, created where there is none.
abbrev pub child_or_new : Option TrieNode → TrieNode
child_or_new none = new_node
child_or_new (some t) = t

-- The class: its one field is the root.
abbrev pub CompressedTrie : Type 0
CompressedTrie = TrieNode

abbrev pub new : CompressedTrie
new = new_node

-- `insert` in the subtree of `current`.
unfoldable pub insert : CompressedTrie → Str → ℤ → CompressedTrie
insert (trie_node cs hop end) [] next_hop = trie_node cs next_hop true
insert (trie_node cs hop end) (c ∷ rest) next_hop =
    trie_node (set_child c (insert (child_or_new (find_child c cs)) rest next_hop) cs) hop end

-- `longest_match_node`, by its next hop, after a step to a node.
abbrev pub match_at : TrieNode → Option ℤ → Option ℤ
match_at current longest =
    if is_end_of_prefix current then some (next_hop_info current) else longest

-- The loop of `lookup`.
unfoldable pub lookup_loop : TrieNode → Option ℤ → Str → Option ℤ
lookup_loop current longest [] = longest
lookup_loop current longest (c ∷ rest) = elim (find_child c (children current)) [
  | none ↦ longest
  | some t ↦ lookup_loop t (match_at t longest) rest
]

abbrev pub or_not_found : Option ℤ → ℤ
or_not_found none = negsuc 0
or_not_found (some hop) = hop

unfoldable pub lookup : CompressedTrie → Str → ℤ
unfolding lookup_loop
lookup root ip_address = or_not_found (lookup_loop root (match_at root none) ip_address)

-- `remove` in the subtree of `current`; a node is never taken out.
unfoldable pub remove : CompressedTrie → Str → CompressedTrie
remove (trie_node cs hop end) [] =
    if end then trie_node cs (negsuc 0) false else trie_node cs hop end
remove (trie_node cs hop end) (c ∷ rest) = elim (find_child c cs) [
  | none ↦ trie_node cs hop end
  | some t ↦ trie_node (set_child c (remove t rest) cs) hop end
]

-- These three only print.
abbrev pub compress_path : CompressedTrie → CompressedTrie
compress_path t = t

abbrev pub compress_level : CompressedTrie → CompressedTrie
compress_level t = t

abbrev pub convert_to_multibit_nodes : CompressedTrie → CompressedTrie
convert_to_multibit_nodes t = t
