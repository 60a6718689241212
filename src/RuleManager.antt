-- ===== src/RuleManager.antt =====
-- src/utils/rule_manager.cpp. Each public method holds the lock of the manager throughout, so it is
-- one step on the state; log lines are left out. A pointer to a rule in the map is its key: a node
-- of std::map stays where it is while its key is there.
pub mod Invariant
pub mod Dictionary
use packet_classifier.Prelude.{
  ℕ, ◌+◌, ◌%◌, ◌^◌, Bool, true, false, ◌||◌, not, List, [], ◌∷◌, Option, none, some, map,
  if◌then◌else◌,
}
use packet_classifier.Prelude.Int.{ℤ, pos, ltb_ℤ, ◌==ℤ◌}
use packet_classifier.StdMap.{StdMap, find, emplace, erase, assign, update_all, contains, keys}
use packet_classifier.StdSort.{StdSort}
use packet_classifier.Rules.{ClassificationRule}

-- The rules under their ids.
abbrev pub RuleMap : Type 0
RuleMap = StdMap ClassificationRule

pub record RuleManager : Type 0 where
  pub rules_by_id : RuleMap
  pub rules_by_priority_cache : List ℤ

abbrev pub new : RuleManager
new = record { rules_by_id = []; rules_by_priority_cache = [] }

-- `ptr->priority`. The sort runs on pointers that were just taken from the map.
unfoldable pub priority_of : RuleMap → ℤ → ℤ
priority_of rules p = elim (find p rules) [ none ↦ pos 0 | some r ↦ r.priority ]

-- `a->priority > b->priority`
unfoldable pub higher : RuleMap → ℤ → ℤ → Bool
higher rules a b = ltb_ℤ (priority_of rules b) (priority_of rules a)

abbrev is_nil : List ℤ → Bool
is_nil [] = true
is_nil (x ∷ xs) = false

-- The check for conflicts is a placeholder that finds none.
unfoldable pub detect_conflict : RuleManager → ClassificationRule → Bool
detect_conflict m rule = false

unfoldable pub get_rule : RuleManager → ℤ → Option ClassificationRule
get_rule m id = find id m.rules_by_id

-- A copy of the pointers in the cache.
unfoldable pub get_rules_by_priority : RuleManager → List ℤ
get_rules_by_priority m = m.rules_by_priority_cache

-- The pairs of a key and the pointer to its rule.
unfoldable pub get_all_rules : RuleManager → StdMap ℤ
get_all_rules m = map (λ e. (e.0, e.0)) m.rules_by_id

-- `match_count` is a `uint64_t`.
abbrev pub counted : ClassificationRule → ℕ → ClassificationRule
counted r timestamp = record r {
  match_count = (r.match_count + 1) % 2 ^ 64;
  last_match_time = timestamp;
}

abbrev pub cleared : ClassificationRule → ClassificationRule
cleared r = record r { match_count = 0; last_match_time = 0 }

unfoldable pub increment_rule_match_count : RuleManager → ℤ → ℕ → RuleManager × Bool
increment_rule_match_count m id timestamp = elim (find id m.rules_by_id) [
  | none ↦ (m, false)
  | some r ↦ (record m { rules_by_id = assign id (counted r timestamp) m.rules_by_id }, true)
]

unfoldable pub reset_rule_statistics : RuleManager → ℤ → RuleManager × Bool
reset_rule_statistics m id = elim (find id m.rules_by_id) [
  | none ↦ (m, false)
  | some r ↦ (record m { rules_by_id = assign id (cleared r) m.rules_by_id }, true)
]

unfoldable pub reset_all_rule_statistics : RuleManager → RuleManager × Bool
reset_all_rule_statistics m =
    (record m { rules_by_id = update_all (λ r. cleared r) m.rules_by_id }, true)

module _ (std : StdSort) where
  unfoldable pub rebuild_priority_cache : RuleManager → RuleManager
  rebuild_priority_cache m = record m {
    rules_by_priority_cache = std.sort (higher m.rules_by_id) (keys m.rules_by_id);
  }

  -- The last branch is taken if `emplace` finds the key.
  unfoldable pub add_rule : RuleManager → ClassificationRule → RuleManager × Bool
  unfolding detect_conflict
  add_rule m rule =
      if contains rule.rule_id m.rules_by_id
      then (m, false)
      else if detect_conflict m rule
      then (m, false)
      else if not (contains rule.rule_id m.rules_by_id)
      then (
        rebuild_priority_cache (record m { rules_by_id = emplace rule.rule_id rule m.rules_by_id }),
        true,
      )
      else (m, false)

  unfoldable pub delete_rule : RuleManager → ℤ → RuleManager × Bool
  delete_rule m id =
      if contains id m.rules_by_id
      then (rebuild_priority_cache (record m { rules_by_id = erase id m.rules_by_id }), true)
      else (m, false)

  -- The old rule is replaced whole, its statistics too, but for its id.
  unfoldable pub modify_rule : RuleManager → ℤ → ClassificationRule → RuleManager × Bool
  unfolding detect_conflict
  modify_rule m id new_rule_data = elim (find id m.rules_by_id) [
    | none ↦ (m, false)
    | some old ↦
        let rule : ClassificationRule = record new_rule_data { rule_id = id } in
        let priority_changed = not (old.priority ==ℤ new_rule_data.priority) in
        let m' : RuleManager = record m { rules_by_id = assign id rule m.rules_by_id } in
        if detect_conflict m rule then (m, false) else (
          if priority_changed || is_nil m.rules_by_priority_cache
              then rebuild_priority_cache m'
              else m',
          true,
        )
  ]
