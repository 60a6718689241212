-- ===== src/Lib.antt =====
-- A packet classifier: rules with a priority are kept by id, and a packet is given the actions of
-- the enabled rule of highest priority whose filter accepts it.
--
-- The parts, by file of the repository.
--
--   include/packet_classifier.h, src/packet_classifier.cpp   Rules, Classifier
--   src/utils/rule_manager.cpp                               RuleManager
--   src/data_structures/bloom_filter.cpp                     BloomFilter
--   src/data_structures/interval_tree.cpp                    IntervalTree
--   src/data_structures/compressed_trie.cpp                  CompressedTrie
--   src/data_structures/concurrent_hash.cpp                  ConcurrentHash
--   src/utils/memory_pool.cpp                                NumaMemory, MemoryPool
--   src/utils/threading.cpp                                  ReadWriteLock, Threading
--   src/utils/logging.cpp                                    Logger
--
-- Rules has the data of the header: `PacketHeader`, `PacketFilter` with its test `matches`,
-- `ActionList`, `ClassificationRule`, `ClassificationResult` and their `toString`. RuleManager
-- has the state `rules_by_id_` (a `std::map`, here StdMap, an association list by ascending key)
-- and `rules_by_priority_cache_`. The cache holds pointers into the map; a pointer is here the id
-- of the rule it points to, since a node of `std::map` keeps its address until it is erased.
-- Classifier has `PacketClassifier`, its methods keep the names of the source in snake_case:
-- `addRule` is `add_rule`. Each of them calls the manager and then the specialized structures, of
-- which the source changes the Bloom filter alone: the tries and the interval trees of the
-- classifier are created and never used. A read through a dangling pointer is the answer `none`.
--
-- IntervalTree is a tree balanced by heights, with the greatest end of each subtree in its node.
-- A method on a pointer to a node is a function on the subtree, and `none` is a read through a
-- null pointer. BloomFilter is the array of bits with its hash functions. CompressedTrie is a
-- trie over the characters of a prefix. ConcurrentHash is the table of entries with linear
-- probing; its loops run over the list of the positions that they probe, of which there are as
-- many as the capacity. ConcurrentHash.Inserts has threads inside `insert`, each access to an
-- entry being a step, for any order of the steps; ConcurrentHash.Lookups has a thread inside
-- `lookup` beside them in the same way. MemoryPool has the free list in a memory of words, whose
-- addresses have 64 bits; its destructor clears a vector of blocks, which is taken to destroy
-- them from front to back; NumaMemory has the call that asks the system for a block, with the
-- computation of its alignment; the answer of the system is an argument of the calls that may
-- ask, and its promises, with the conditions that no size overflows a `size_t` and that a block
-- lies in the address space, are the record MemoryPool.Invariant.Answers. The loops of NumaMemory
-- that double an alignment run on 65 rounds of fuel, since a word has 64 bits. The loop of
-- `getUsedCount` runs on the capacity as fuel: a free list without a cycle has at most as many
-- objects.
--
-- ReadWriteLock has the fields of the lock and one function for each critical section;
-- ReadWriteLock.Threads has the threads that call them, as a step relation, so that an
-- interleaving is a sequence of steps. ReadWriteLock.Waits adds the two condition variables:
-- which waiting threads sleep, whom a release notifies, and wake-ups without a notification; a
-- thread whose call waits takes no other step there, while ReadWriteLock.Threads lets it.
-- Threading.ThreadPool has the workers of `SimpleThreadPool` and their callers in the same way,
-- Threading.ThreadPool.Waits adds its condition variable, and Threading.Rcu the deferred
-- callbacks. Logger has what was written as a list; Logger.Reading is a reader of its lines.
--
-- Numbers. Unsigned integers are ℕ, with the wrap-around of the 64-bit counters and hashes
-- written out; `int` is ℤ without a bound: the source compares such numbers, and computes with
-- them only in the balance of a tree node and in the counts of the lock, which the nodes and the
-- threads bound. Strings are lists of bytes.
--
-- Parameters. `std::sort` is the record StdSort: a permutation, ordered where the comparison is a
-- strict weak order. `std::hash` on strings is a function. The arithmetic on `double` of the
-- Bloom filter is DoubleOps, with no laws. The clock is an argument of each call that reads it,
-- and so are `localtime_r` and the opening of the log's file.
--
-- Loops over a container are recursion on a list, the probes of the hash table on the number that
-- remains, recursion on a tree is structural; the digits of a number are written with the number
-- itself as fuel, which is enough since each step divides by ten.
--
-- Locks. Each method of RuleManager holds the manager's mutex, so it is one step of the state. A
-- method of PacketClassifier is a sequence of such steps; Classifier.Race has the one
-- interleaving of two of them that matters to `classify`.
--
-- Not modelled: the output to the console that is not the logger's, the log calls in the other
-- parts, the joins of the thread pool, the destructors that only print or free what nothing else
-- holds, threads inside `remove` and `resize` of the hash table at once with others, and the weak
-- order of memory.
pub mod Prelude
pub mod StdMap
pub mod StdSort
pub mod Text
pub mod Rules
pub mod RuleManager
pub mod BloomFilter
pub mod Classifier
pub mod IntervalTree
pub mod CompressedTrie
pub mod ConcurrentHash
pub mod Logger
pub mod MemoryPool
pub mod NumaMemory
pub mod ReadWriteLock
pub mod Threading
pub mod Tests
