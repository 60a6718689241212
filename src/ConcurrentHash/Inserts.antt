-- ===== src/ConcurrentHash/Inserts.antt =====
-- Threads inside `insert` of src/data_structures/concurrent_hash.cpp. Each access to an entry is a
-- step, and an interleaving is the list of the threads in the order in which they move; the memory is
-- sequentially consistent.
pub mod Steps
pub mod Invariant
pub mod Moves
pub mod Ends
pub mod Items
pub mod Finished
pub mod Crossed
use packet_classifier.Prelude.{
  ℕ, zero, suc, ◌+◌, ◌*◌, ◌%◌, ◌^◌, Bool, true, List, [], ◌∷◌, if◌then◌else◌, get_or, set, map,
  length,
}
use packet_classifier.Prelude.Int.{ℤ, pos}
use packet_classifier.Text.{Str, same_text}
use packet_classifier.ConcurrentHash.{TableEntry, ConcurrentHashTable, new, slot, positions}

-- Where a thread is: before the exchange of `in_use` at the first of the positions that remain; after a
-- failed one, before the comparison of the key; after a successful one, before the key is written; then
-- before the value is, and before the size is counted; before the value of an entry with the key is
-- written; at the end, with its entry; at the end, with the table full.
pub data Place : Type 0 where
  probing : List ℕ → Place
  occupied : ℕ → List ℕ → Place
  claimed : ℕ → Place
  keyed : ℕ → Place
  stored : ℕ → Place
  matched : ℕ → Place
  done : ℕ → Place
  full : Place

pub record Thread : Type 0 where
  pub key : Str
  pub value : ℤ
  pub place : Place

pub record World : Type 0 where
  pub entries : List TableEntry
  pub current_size : ℕ
  pub threads : List Thread

-- What a move of a thread does to the entries, to the size and to the thread.
pub record Move : Type 0 where
  pub entries : List TableEntry
  pub counted : ℕ
  pub next : Place

unfoldable pub move : List TableEntry → Str → ℤ → Place → Move
move es key value (probing []) = record { entries = es; counted = 0; next = full }
move es key value (probing (i ∷ is)) =
    if (slot es i).in_use
    then record { entries = es; counted = 0; next = occupied i is }
    else record {
      entries = set es i (record (slot es i) { in_use = true });
      counted = 0;
      next = claimed i;
    }
move es key value (occupied i is) = record {
  entries = es;
  counted = 0;
  next = if same_text (slot es i).key key then matched i else probing is;
}
move es key value (claimed i) = record {
  entries = set es i (record (slot es i) { key = key });
  counted = 0;
  next = keyed i;
}
move es key value (keyed i) = record {
  entries = set es i (record (slot es i) { value = value });
  counted = 0;
  next = stored i;
}
move es key value (stored i) = record { entries = es; counted = 1; next = done i }
move es key value (matched i) = record {
  entries = set es i (record (slot es i) { value = value });
  counted = 0;
  next = done i;
}
move es key value (done i) = record { entries = es; counted = 0; next = done i }
move es key value full = record { entries = es; counted = 0; next = full }

abbrev pub nobody : Thread
nobody = record { key = []; value = pos 0; place = full }

abbrev pub thread : List Thread → ℕ → Thread
thread ts n = get_or ts n nobody

-- The thread of a number moves; a number of no thread changes nothing.
unfoldable pub step : World → ℕ → World
unfolding move
step w n =
    let t = thread w.threads n in
    let m = move w.entries t.key t.value t.place in
    record {
      entries = m.entries;
      current_size = (w.current_size + m.counted) % 2 ^ 64;
      threads = set w.threads n (record t { place = m.next });
    }

unfoldable pub run : World → List ℕ → World
unfolding step
run w [] = w
run w (n ∷ ns) = run (step w n) ns

module _ (std_hash : Str → ℕ) where
  abbrev pub caller : ConcurrentHashTable → Str × ℤ → Thread
  caller t (key, value) = record {
    key = key;
    value = value;
    place = probing (positions std_hash t key);
  }

  -- A thread for each item, at the start of its call.
  abbrev pub begin : ConcurrentHashTable → List (Str × ℤ) → World
  begin t items = record {
    entries = t.table;
    current_size = t.current_size;
    threads = map (caller t) items;
  }
