-- ===== src/ConcurrentHash/Placeholders.antt =====
-- The methods of src/data_structures/concurrent_hash.cpp that stand for what is not written yet: they
-- print, and change nothing.
use packet_classifier.Prelude.{ℕ, Bool, false}
use packet_classifier.Text.{Str}
use packet_classifier.ConcurrentHash.{TableEntry, ConcurrentHashTable}

abbrev pub hash_function : (Str → ℕ) → Str → ℕ
hash_function std_hash key = std_hash key

abbrev pub synchronize_rcu : ConcurrentHashTable → ConcurrentHashTable
synchronize_rcu t = t

-- The index, and `found_empty_slot`.
abbrev pub robin_hood_probe : Str → ℕ → ℕ × Bool
robin_hood_probe key initial_hash_index = (initial_hash_index, false)

-- The entry and the index, which are passed by reference.
abbrev pub resolve_robin_hood_collision : TableEntry → ℕ → TableEntry × ℕ
resolve_robin_hood_collision new_entry current_index = (new_entry, current_index)
