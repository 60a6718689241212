-- ===== src/CompressedTrie/Longest.antt =====
-- `lookup` of src/data_structures/compressed_trie.cpp against the longest prefix in a dictionary.
use mathlib.Core.Path.{fun_ext}
use packet_classifier.Prelude.{
  ℕ, suc, ◌<◌, ◌≡◌, refl, ◌∙◌, ap, ◌⊎◌, Bool, List, [], ◌∷◌, ◌++◌, Option, none, some, arith,
  Option-cases, inl, inr, length,
}
use packet_classifier.Prelude.Int.{ℤ, negsuc}
use packet_classifier.Text.{Str}
use packet_classifier.CompressedTrie.{
  TrieNode, Children, trie_node, new_node, find_child, match_at, lookup_loop, or_not_found, lookup,
}
use packet_classifier.CompressedTrie.Dictionary.{
  Dictionary, Change, stored, run, promised, stored-run, stored-new_node,
}

-- The value of the longest prefix of the text that the dictionary has.
abbrev pub longest : Dictionary → Str → Option ℤ
longest d [] = d []
longest d (c ∷ s) = elim (longest (λ p. d (c ∷ p)) s) [ none ↦ d [] | some hop ↦ some hop ]

-- The text has a prefix with this value, and no longer prefix has a value.
pub record IsLongest (d : Dictionary) (s : Str) (hop : ℤ) : Type 0 where
  pub prefix : Str
  pub suffix : Str
  pub splits : s ≡ prefix ++ suffix
  pub value : d prefix ≡ some hop
  pub no_longer : (q rest : Str) → s ≡ q ++ rest → length prefix < length q → d q ≡ none

abbrev pub NoPrefix : Dictionary → Str → Type 0
NoPrefix d s = (q rest : Str) → s ≡ q ++ rest → d q ≡ none

NoPrefix-cons :
    (d : Dictionary) (c : ℕ) (s : Str)
    → d [] ≡ none
    → NoPrefix (λ p. d (c ∷ p)) s
    → NoPrefix d (c ∷ s)
NoPrefix-cons d c s e h [] rest eq = e
NoPrefix-cons d c s e h (b ∷ q) rest eq = let k = h q rest cc in cc

NoPrefix-nil : (d : Dictionary) → d [] ≡ none → NoPrefix d []
NoPrefix-nil d e [] rest eq = e
NoPrefix-nil d e (b ∷ q) rest eq = absurd cc

no_longer_nil : (q rest : Str) → [] ≡ q ++ rest → 0 < length q → ⊥
no_longer_nil [] rest eq far = omega arith
no_longer_nil (b ∷ q) rest eq far = cc

no_longer-nil :
    (d : Dictionary) (c : ℕ) (s : Str)
    → NoPrefix (λ p. d (c ∷ p)) s
    → (q rest : Str) → c ∷ s ≡ q ++ rest
    → 0 < length q
    → d q ≡ none
no_longer-nil d c s h [] rest eq far = absurd (omega arith)
no_longer-nil d c s h (b ∷ q) rest eq far = let k = h q rest cc in cc

no_longer-cons :
    (d : Dictionary) (c : ℕ) (s p : Str)
    → ((q rest : Str) → s ≡ q ++ rest → length p < length q → d (c ∷ q) ≡ none)
    → (q rest : Str) → c ∷ s ≡ q ++ rest
    → suc (length p) < length q
    → d q ≡ none
no_longer-cons d c s p h [] rest eq far = absurd (omega arith)
no_longer-cons d c s p h (b ∷ q) rest eq far =
    let k = h q rest cc in let low : length p < length q = omega arith in let gone = k low in cc

longest-IsLongest :
    (d : Dictionary) (s : Str)
    → ((longest d s ≡ none) × NoPrefix d s)
      ⊎ ((hop : ℤ) × (longest d s ≡ some hop) × IsLongest d s hop)
longest-IsLongest d [] = elim (Option-cases (d [])) [
  | inl blank ↦ inl (blank, NoPrefix-nil d blank)
  | inr (hop, here) ↦ inr (
    hop,
    here,
    record {
      prefix = [];
      suffix = [];
      splits = refl;
      value = here;
      no_longer = λ q rest eq far. absurd (no_longer_nil q rest eq far);
    },
  )
]
longest-IsLongest d (c ∷ s) = elim (longest-IsLongest (λ p. d (c ∷ p)) s) [
  | inl (gone, no_prefix) ↦ elim (Option-cases (d [])) [
    | inl blank ↦ inl (rw gone blank, NoPrefix-cons d c s blank no_prefix)
    | inr (hop, here) ↦ inr (
      hop,
      rw gone here,
      record {
        prefix = [];
        suffix = c ∷ s;
        splits = refl;
        value = here;
        no_longer = no_longer-nil d c s no_prefix;
      },
    )
  ]
  | inr (hop, there, is) ↦ inr (
    hop,
    rw there refl,
    record {
      prefix = c ∷ is.prefix;
      suffix = is.suffix;
      splits = ap (λ x. c ∷ x) is.splits;
      value = is.value;
      no_longer = no_longer-cons d c s is.prefix is.no_longer;
    },
  )
]

or_else : Option ℤ → Option ℤ → Option ℤ
or_else none b = b
or_else (some a) b = some a

longest-none : (s : Str) → longest (λ p. none) s ≡ none
longest-none [] = refl
longest-none (c ∷ s) = rw (longest-none s) refl

longest-gone :
    (cs : Children) (hop : ℤ) (end : Bool) (c : ℕ) (s : Str)
    → find_child c cs ≡ none
    → longest (λ p. stored (trie_node cs hop end) (c ∷ p)) s ≡ none
unfolding stored
longest-gone cs hop end c s gone = rw (stored, gone) (longest-none s)

longest-below :
    (cs : Children) (hop : ℤ) (end : Bool) (c : ℕ) (t : TrieNode) (s : Str)
    → find_child c cs ≡ some t
    → longest (λ p. stored (trie_node cs hop end) (c ∷ p)) s ≡ longest (stored t) s
unfolding stored
longest-below cs hop end c t s there = rw (stored, there) refl

lookup_loop-longest :
    (t : TrieNode) (best : Option ℤ) (s : Str)
    → lookup_loop t (match_at t best) s ≡ or_else (longest (stored t) s) best
unfolding lookup_loop stored or_else
lookup_loop-longest (trie_node cs hop end) best [] = ground arith
lookup_loop-longest (trie_node cs hop end) best (c ∷ s) = elim (Option-cases (find_child c cs)) [
  | inl gone ↦ ground (arith, longest-gone cs hop end c s gone)
  | inr (t, there) ↦ ground (
    arith,
    longest-below cs hop end c t s there,
    lookup_loop-longest t (match_at (trie_node cs hop end) best) s,
  )
]

pub lookup-longest : (t : TrieNode) (s : Str) → lookup t s ≡ or_not_found (longest (stored t) s)
unfolding lookup or_else
lookup-longest t s = rw (lookup_loop-longest t none s) (ground arith)

-- After any insertions and removals, `lookup` gives the value of the longest prefix of the address
-- in the dictionary that the same changes give, and -1 where it has no prefix of the address.
pub lookup-run :
    (cs : List Change) (s : Str)
    → lookup (run new_node cs) s ≡ or_not_found (longest (promised (λ q. none) cs) s)
lookup-run cs s =
    lookup-longest (run new_node cs) s
    ∙ ap (λ d. or_not_found (longest d s))
        (stored-run new_node cs ∙ ap (λ d. promised d cs) (fun_ext stored-new_node))

-- Either a prefix of the address is stored, and `lookup` gives the next hop of the longest one, or
-- none is, and it gives -1.
pub lookup-IsLongest :
    (t : TrieNode) (s : Str)
    → ((lookup t s ≡ negsuc 0) × NoPrefix (stored t) s) ⊎ IsLongest (stored t) s (lookup t s)
lookup-IsLongest t s = elim (longest-IsLongest (stored t) s) [
  | inl (none_there, no_prefix) ↦ inl (rw (lookup-longest t s, none_there) refl, no_prefix)
  | inr (hop, there, is) ↦ inr (rw (lookup-longest t s, there) is)
]
