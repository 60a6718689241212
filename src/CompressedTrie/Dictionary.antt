-- ===== src/CompressedTrie/Dictionary.antt =====
-- The trie against an abstract dictionary, a function from prefixes to next hops.
use mathlib.Core.Path.{fun_ext}
use packet_classifier.Prelude.{
  ℕ, ◌≡◌, refl, ◌∙◌, ap, true, false, List, [], ◌∷◌, Option, none, some, arith, ◌==◌, if◌then◌else◌,
  Option-cases, inl, inr,
}
use packet_classifier.Prelude.Int.{ℤ}
use packet_classifier.Text.{Str, same_text}
use packet_classifier.CompressedTrie.{
  TrieNode, Children, trie_node, no_children, child, new_node, find_child, set_child, child_or_new,
  insert, remove,
}

-- The next hop stored for exactly this prefix.
unfoldable pub stored : TrieNode → Str → Option ℤ
stored (trie_node cs hop end) [] = if end then some hop else none
stored (trie_node cs hop end) (c ∷ rest) = elim (find_child c cs) [
  | none ↦ none
  | some t ↦ stored t rest
]

find_child-set_child :
    (c d : ℕ) (t : TrieNode) (cs : Children)
    → find_child d (set_child c t cs) ≡ (if c == d then some t else find_child d cs)
unfolding find_child set_child
find_child-set_child c d t no_children = refl
find_child-set_child c d t (child e u cs) = ground (arith, find_child-set_child c d t cs)

pub stored-new_node : (q : Str) → stored new_node q ≡ none
unfolding stored find_child
stored-new_node [] = refl
stored-new_node (c ∷ q) = refl

stored-child_or_new :
    (c : ℕ) (cs : Children) (q : Str)
    → stored (child_or_new (find_child c cs)) q
      ≡ elim (find_child c cs) [ none ↦ none | some t ↦ stored t q ]
stored-child_or_new c cs q = elim (Option-cases (find_child c cs)) [
  | inl gone ↦ rw gone (stored-new_node q)
  | inr (t, there) ↦ rw there refl
]

pub stored-insert :
    (t : TrieNode) (p : Str) (hop : ℤ) (q : Str)
    → stored (insert t p hop) q ≡ (if same_text p q then some hop else stored t q)
unfolding stored insert
stored-insert (trie_node cs h end) [] hop [] = refl
stored-insert (trie_node cs h end) [] hop (d ∷ q) = refl
stored-insert (trie_node cs h end) (c ∷ p) hop [] = refl
stored-insert (trie_node cs h end) (c ∷ p) hop (d ∷ q) = ground (
  arith,
  find_child-set_child c d (insert (child_or_new (find_child c cs)) p hop) cs,
  stored-insert (child_or_new (find_child c cs)) p hop q,
  stored-child_or_new c cs q,
)

pub stored-remove :
    (t : TrieNode) (p q : Str)
    → stored (remove t p) q ≡ (if same_text p q then none else stored t q)
unfolding stored remove
stored-remove (trie_node cs h true) [] [] = refl
stored-remove (trie_node cs h false) [] [] = refl
stored-remove (trie_node cs h true) [] (d ∷ q) = refl
stored-remove (trie_node cs h false) [] (d ∷ q) = refl
stored-remove (trie_node cs h end) (c ∷ p) [] = elim (Option-cases (find_child c cs)) [
  | inl gone ↦ ground arith
  | inr (t, there) ↦ ground arith
]
stored-remove (trie_node cs h end) (c ∷ p) (d ∷ q) = elim (Option-cases (find_child c cs)) [
  | inl gone ↦ ground arith
  | inr (t, there) ↦ ground (arith, find_child-set_child c d (remove t p) cs, stored-remove t p q)
]

pub data Change : Type 0 where
  put : Str → ℤ → Change
  drop : Str → Change

unfoldable pub run : TrieNode → List Change → TrieNode
run t [] = t
run t (put p hop ∷ cs) = run (insert t p hop) cs
run t (drop p ∷ cs) = run (remove t p) cs

abbrev pub Dictionary : Type 0
Dictionary = Str → Option ℤ

unfoldable pub promised : Dictionary → List Change → Dictionary
promised d [] = d
promised d (put p hop ∷ cs) = promised (λ q. if same_text p q then some hop else d q) cs
promised d (drop p ∷ cs) = promised (λ q. if same_text p q then none else d q) cs

pub stored-run : (t : TrieNode) (cs : List Change) → stored (run t cs) ≡ promised (stored t) cs
unfolding run promised
stored-run t [] = refl
stored-run t (put p hop ∷ cs) =
    stored-run (insert t p hop) cs ∙ ap (λ d. promised d cs) (fun_ext (stored-insert t p hop))
stored-run t (drop p ∷ cs) =
    stored-run (remove t p) cs ∙ ap (λ d. promised d cs) (fun_ext (stored-remove t p))
