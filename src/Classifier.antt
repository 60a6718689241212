-- ===== src/Classifier.antt =====
-- class PacketClassifier of src/packet_classifier.cpp. The tries and the interval trees are made by
-- its constructor and touched by nothing else, so they are no part of the state. Of the locks only
-- the order of the calls matters: one method is one step, but for Classifier/Race.antt, where the
-- snapshot of the pointers and its use are two steps. The query of the Bloom filter in `classify`
-- is only logged.
pub mod Scan
pub mod Classify
pub mod Requests
pub mod Guards
pub mod Covered
pub mod Batch
pub mod Race
pub mod Addresses
use mathlib.Core.Option
use packet_classifier.Prelude.{
  ℕ, Bool, true, false, not, List, [], ◌∷◌, Option, none, some, if◌then◌else◌,
}
use packet_classifier.Prelude.Int.{ℤ}
use packet_classifier.StdMap.{StdMap, find}
use packet_classifier.StdSort.{StdSort}
use packet_classifier.Text.{Str}
use packet_classifier.Rules.{
  PacketHeader, ClassificationRule, ClassificationResult, no_match, matches, filter_to_string,
}
use packet_classifier.RuleManager
use packet_classifier.RuleManager.{RuleManager, RuleMap}
use packet_classifier.BloomFilter
use packet_classifier.BloomFilter.{BloomFilter}

-- `bloom_filter` is `none` where `use_bloom_filter_` is false.
pub record PacketClassifier : Type 0 where
  pub rule_manager : RuleManager
  pub bloom_filter : Option BloomFilter

-- The constructor, with the filter that it makes if the optimisation is on.
abbrev pub init : Option BloomFilter → PacketClassifier
init bloom = record { rule_manager = RuleManager.new; bloom_filter = bloom }

-- The loop of `classify` over the pointers. `dangling` is the read of a rule that is gone, which
-- has no defined behaviour.
pub data Verdict : Type 0 where
  dangling no_rule : Verdict
  hit : ClassificationRule → Verdict

unfoldable pub scan : RuleMap → PacketHeader → List ℤ → Verdict
scan rules h [] = no_rule
scan rules h (p ∷ ps) =
    let rest = scan rules h ps in
    elim (find p rules) [
      | none ↦ dangling
      | some r ↦ if not r.enabled then rest else if matches r.filter h then hit r else rest
    ]

abbrev pub result_of : ClassificationRule → ClassificationResult
result_of r = record { matched = true; matched_rule_id = r.rule_id; actions = r.actions }

-- `classify` at the time `now`; `none` is the undefined behaviour.
unfoldable pub classify :
    PacketClassifier → PacketHeader → ℕ → Option (ClassificationResult × PacketClassifier)
classify c h now =
    let m = c.rule_manager in
    elim (scan m.rules_by_id h (RuleManager.get_rules_by_priority m)) [
      | dangling ↦ none
      | no_rule ↦ some (no_match, c)
      | hit r ↦ some (
        result_of r,
        record c { rule_manager = (RuleManager.increment_rule_match_count m r.rule_id now).0 },
      )
    ]

-- Each packet comes with the time at which it is classified.
unfoldable pub classify_batch :
    PacketClassifier
    → List (PacketHeader × ℕ)
    → Option (List ClassificationResult × PacketClassifier)
classify_batch c [] = some ([], c)
classify_batch c ((h, now) ∷ packets) = elim (classify c h now) [
  | none ↦ none
  | some (r, c') ↦ Option.map (λ t. (r ∷ t.0, t.1)) (classify_batch c' packets)
]

-- The counters that the pointers lead to, in the order of the map.
collect : RuleMap → StdMap ℤ → Option (StdMap ℕ)
collect rules [] = some []
collect rules ((id, p) ∷ ps) = elim (find p rules) [
  | none ↦ none
  | some r ↦ Option.map (λ t. (id, r.match_count) ∷ t) (collect rules ps)
]

unfoldable pub get_statistics : PacketClassifier → Option (StdMap ℕ)
unfolding collect
get_statistics c = collect c.rule_manager.rules_by_id (RuleManager.get_all_rules c.rule_manager)

unfoldable pub get_rule_statistics : PacketClassifier → ℤ → ℕ
get_rule_statistics c id = elim (RuleManager.get_rule c.rule_manager id) [
  | none ↦ 0
  | some r ↦ r.match_count
]

unfoldable pub reset_statistics : PacketClassifier → PacketClassifier
reset_statistics c = record c {
  rule_manager = (RuleManager.reset_all_rule_statistics c.rule_manager).0;
}

unfoldable pub reset_rule_statistics : PacketClassifier → ℤ → PacketClassifier
reset_rule_statistics c id = record c {
  rule_manager = (RuleManager.reset_rule_statistics c.rule_manager id).0;
}

-- Nothing is removed: the steps for the tries and trees are comments, and a Bloom filter cannot
-- forget.
unfoldable pub remove_rule_from_specialized_structures :
    PacketClassifier → ℤ → PacketClassifier × Bool
remove_rule_from_specialized_structures c id = elim (RuleManager.get_rule c.rule_manager id) [
  | none ↦ (c, true)
  | some r ↦ (c, true)
]

module _ (std : StdSort) (std_hash : Str → ℕ) where
  -- Of the structures only the Bloom filter is updated.
  unfoldable pub update_specialized_structures_for_rule :
      PacketClassifier → ClassificationRule → PacketClassifier × Bool
  update_specialized_structures_for_rule c rule =
      if rule.enabled
      then (
        record c {
          bloom_filter =
              Option.map (λ f. BloomFilter.insert std_hash f (filter_to_string rule.filter))
                c.bloom_filter;
        },
        true,
      )
      else (c, true)

  unfoldable pub add_rule : PacketClassifier → ClassificationRule → PacketClassifier × Bool
  unfolding update_specialized_structures_for_rule
  add_rule c rule =
      let (m, added) = RuleManager.add_rule std c.rule_manager rule in
      let (c', updated) =
        update_specialized_structures_for_rule (record c { rule_manager = m }) rule in
      if not added
      then (record c { rule_manager = m }, false)
      else if not updated
      then (c', false)
      else (c', true)

  unfoldable pub delete_rule : PacketClassifier → ℤ → PacketClassifier × Bool
  unfolding remove_rule_from_specialized_structures
  delete_rule c id =
      let (c', removed) = remove_rule_from_specialized_structures c id in
      let (m, deleted) = RuleManager.delete_rule std c'.rule_manager id in
      if not deleted
      then (record c' { rule_manager = m }, false)
      else (record c' { rule_manager = m }, true)

  unfoldable pub modify_rule : PacketClassifier → ℤ → ClassificationRule → PacketClassifier × Bool
  unfolding update_specialized_structures_for_rule remove_rule_from_specialized_structures
  modify_rule c id new_rule_data =
      let (m, modified) = RuleManager.modify_rule std c.rule_manager id new_rule_data in
      let (c', removed) =
        remove_rule_from_specialized_structures (record c { rule_manager = m }) id in
      let (c'', updated) = update_specialized_structures_for_rule c' new_rule_data in
      if not modified
      then (record c { rule_manager = m }, false)
      else if not updated
      then (c'', false)
      else (c'', true)
