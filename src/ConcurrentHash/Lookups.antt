-- ===== src/ConcurrentHash/Lookups.antt =====
-- A thread inside `lookup` of src/data_structures/concurrent_hash.cpp while others are inside `insert`.
-- Each access to an entry is a step; it reads and writes nothing else that they share.
pub mod Sights
pub mod Watch
pub mod Seen
pub mod Finds
pub mod Early
use packet_classifier.Prelude.{ℕ, List, [], ◌∷◌, Option, none, some, if◌then◌else◌}
use packet_classifier.Prelude.Int.{ℤ}
use packet_classifier.Text.{Str, same_text}
use packet_classifier.ConcurrentHash.{TableEntry, slot}
use packet_classifier.ConcurrentHash.Inserts.{World, step}

-- Where the lookup is: before the load of `in_use` at the first of the positions that remain; then
-- before the comparison of the key; then before the value is read; at the end with the value, or with
-- none.
pub data Seek : Type 0 where
  seeking : List ℕ → Seek
  used : ℕ → List ℕ → Seek
  equal : ℕ → Seek
  found : ℤ → Seek
  missing : Seek

unfoldable pub look : List TableEntry → Str → Seek → Seek
look es key (seeking []) = missing
look es key (seeking (i ∷ is)) = if (slot es i).in_use then used i is else seeking is
look es key (used i is) = if same_text (slot es i).key key then equal i else seeking is
look es key (equal i) = found (slot es i).value
look es key (found value) = found value
look es key missing = missing

pub record Scene : Type 0 where
  pub world : World
  pub seek : Seek

-- `none` is a step of the lookup, `some n` one of the thread `n`.
unfoldable pub turn : Str → Scene → Option ℕ → Scene
unfolding look
turn key c none = record c { seek = look c.world.entries key c.seek }
turn key c (some n) = record c { world = step c.world n }

unfoldable pub play : Str → Scene → List (Option ℕ) → Scene
unfolding turn
play key c [] = c
play key c (m ∷ ms) = play key (turn key c m) ms
