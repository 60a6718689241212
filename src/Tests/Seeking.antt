-- ===== src/Tests/Seeking.antt =====
-- A lookup that begins after an insertion has ended, and one that begins too early.
use packet_classifier.Prelude.{
  ℕ, ◌<◌, ◌≡◌, ◌⊎◌, refl, List, [], ◌∷◌, Option, none, some, length, arith,
}
use packet_classifier.Prelude.Int.{ℤ, pos, negsuc}
use packet_classifier.Text.{Str, codes}
use packet_classifier.ConcurrentHash.{new, positions, positions_from, empty_entry}
use packet_classifier.ConcurrentHash.Inserts.{begin, run, thread, done}
use packet_classifier.ConcurrentHash.Inserts.Items.{item}
use packet_classifier.ConcurrentHash.Lookups.{seeking, found, play}
use packet_classifier.ConcurrentHash.Lookups.Seen.{HalfSeen}
use packet_classifier.ConcurrentHash.Lookups.Finds.{concurrent_lookup}
use packet_classifier.ConcurrentHash.Lookups.Early.{scene, schedule, early_lookup}

seek_program : Unit {0}
unfolding new positions positions_from run
seek_program = tt

abbrev no_hash : Str → ℕ
no_hash key = 0

abbrev two_items : List (Str × ℤ)
two_items = (codes "a", pos 1) ∷ (codes "b", pos 2) ∷ []

-- The first call alone.
abbrev one_ended : List ℕ
one_ended = 0 ∷ 0 ∷ 0 ∷ 0 ∷ []

-- The lookup and the second call in turn.
abbrev mixed : List (Option ℕ)
mixed = none ∷ some 1 ∷ none ∷ some 1 ∷ none ∷ some 1 ∷ none ∷ some 1 ∷ none ∷ some 1 ∷ none ∷ []

two_wide : (new 2).capacity ≡ 2
unfolding seek_program
two_wide = refl

first_key : (thread (run (begin no_hash (new 2) two_items) one_ended).threads 0).key ≡ codes "a"
unfolding seek_program
first_key = refl

first_done : (thread (run (begin no_hash (new 2) two_items) one_ended).threads 0).place ≡ done 0
unfolding seek_program
first_done = refl

concurrent_lookup_example :
    (value : ℤ) × ((play
        (codes "a")
        (record {
          world = run (begin no_hash (new 2) two_items) one_ended;
          seek = seeking (positions no_hash (new 2) (codes "a"));
        })
        mixed).seek
      ≡ found value)
    × (((value ≡ negsuc 0)
          × HalfSeen
              (codes "a")
              (record {
                world = run (begin no_hash (new 2) two_items) one_ended;
                seek = seeking (positions no_hash (new 2) (codes "a"));
              })
              mixed)
        ⊎ ((m : ℕ) × (m < length two_items) × (item two_items m ≡ (codes "a", value))))
concurrent_lookup_example =
    concurrent_lookup no_hash 2 two_items (refl, (refl, tt)) one_ended 0 0 (codes "a") mixed refl
      first_key first_done (omega (arith, two_wide))

early_lookup_example :
    (play
      (codes "a")
      (scene (empty_entry ∷ empty_entry ∷ []) 0 (codes "a") (pos 5) 0 (1 ∷ []) (1 ∷ []) [])
      schedule).seek
    ≡ found (negsuc 0)
early_lookup_example =
    early_lookup (empty_entry ∷ empty_entry ∷ []) 0 (codes "a") (pos 5) 0 (1 ∷ []) (1 ∷ []) []
      (omega arith) refl
