-- ===== src/RuleManager/Invariant.antt =====
-- The map and the cache of pointers of src/utils/rule_manager.cpp, after each method.
use packet_classifier.Prelude.{
  ℕ, ◌≡◌, refl, Bool, false, List, none, some, arith, Ordered, Ordered-map, Option-cases,
  Bool-cases, inl, inr, if◌then◌else◌, not, ◌||◌,
}
use packet_classifier.Prelude.Int.{ℤ, ◌==ℤ◌, ==ℤ_iff}
use packet_classifier.StdMap.{find, emplace, erase, assign, update_all, contains, keys}
use packet_classifier.StdMap.Laws.{
  IsSorted, count, find-eq-none, find-emplace, find-erase, find-assign, find-update_all,
  keys-assign, keys-update_all, emplace-IsSorted, erase-IsSorted,
}
use packet_classifier.StdSort.{StdSort, StrictWeak}
use packet_classifier.Rules.{ClassificationRule}
use packet_classifier.RuleManager.{
  RuleManager, RuleMap, priority_of, higher, counted, cleared, rebuild_priority_cache, add_rule,
  delete_rule, modify_rule, increment_rule_match_count, reset_rule_statistics,
  reset_all_rule_statistics,
}

-- Each rule stands under its own id.
abbrev pub IsKeyed : RuleMap → Type 0
IsKeyed rules = (k : ℤ) (r : ClassificationRule) → find k rules ≡ some r → r.rule_id ≡ k

-- No later pointer of the cache has a higher priority.
abbrev pub IsRanked : RuleMap → List ℤ → Type 0
IsRanked rules = Ordered (λ a b. higher rules b a ≡ false)

pub record IsValid (m : RuleManager) : Type 0 where
  pub sorted : IsSorted m.rules_by_id
  pub keyed : IsKeyed m.rules_by_id
  -- The cache has a pointer to each rule, once, and no other.
  pub cached : (a : ℤ) → count a m.rules_by_priority_cache ≡ count a (keys m.rules_by_id)
  pub ranked : IsRanked m.rules_by_id m.rules_by_priority_cache

higher-StrictWeak : (rules : RuleMap) → StrictWeak (higher rules)
unfolding higher
higher-StrictWeak rules = record {
  irreflexive = λ a. ground arith;
  transitive = λ a b c h k. ground arith;
  co_transitive = λ a b c h k. ground arith;
}

emplace-IsKeyed :
    (rule : ClassificationRule) (rules : RuleMap)
    → find rule.rule_id rules ≡ none
    → IsKeyed rules
    → IsKeyed (emplace rule.rule_id rule rules)
emplace-IsKeyed rule rules fresh h k r e =
    ground (arith, find-emplace rule.rule_id k rule rules fresh, h k r)

erase-IsKeyed :
    (id : ℤ) (rules : RuleMap) → IsSorted rules → IsKeyed rules → IsKeyed (erase id rules)
erase-IsKeyed id rules s h k r e = ground (arith, find-erase id k rules s, h k r)

assign-IsKeyed :
    (id : ℤ) (rule old : ClassificationRule) (rules : RuleMap)
    → find id rules ≡ some old
    → rule.rule_id ≡ id
    → IsKeyed rules
    → IsKeyed (assign id rule rules)
assign-IsKeyed id rule old rules there named h k r e =
    ground (arith, find-assign id k rule old rules there, h k r)

update_all-IsKeyed :
    (f : ClassificationRule → ClassificationRule) (rules : RuleMap)
    → ((r : ClassificationRule) → (f r).rule_id ≡ r.rule_id)
    → IsKeyed rules
    → IsKeyed (update_all f rules)
update_all-IsKeyed f rules same h k r e = elim (Option-cases (find k rules)) [
  | inl gone ↦ cc (find-update_all k f rules)
  | inr (s, there) ↦ ground (arith, find-update_all k f rules, same s, h k s)
]

-- A change of the rules that keeps the keys and the priorities keeps the cache right.
same_ranks-IsValid :
    (m : RuleManager) (rules : RuleMap)
    → keys rules ≡ keys m.rules_by_id
    → ((a : ℤ) → priority_of rules a ≡ priority_of m.rules_by_id a)
    → IsKeyed rules
    → IsValid m
    → IsValid (record m { rules_by_id = rules })
unfolding higher
same_ranks-IsValid m rules same ranks keyed v = record {
  sorted = rw same v.sorted;
  keyed = keyed;
  cached = rw same v.cached;
  ranked =
      Ordered-map {R = λ a b. higher m.rules_by_id b a ≡ false}
        {S = λ a b. higher rules b a ≡ false} (λ a b h. rw (ranks a, ranks b) h)
        m.rules_by_priority_cache v.ranked;
}

assign-IsValid :
    (m : RuleManager) (id : ℤ) (rule old : ClassificationRule)
    → find id m.rules_by_id ≡ some old
    → rule.rule_id ≡ id
    → rule.priority ≡ old.priority
    → IsValid m
    → IsValid (record m { rules_by_id = assign id rule m.rules_by_id })
unfolding priority_of
assign-IsValid m id rule old there named same v =
    same_ranks-IsValid m _ (keys-assign id rule m.rules_by_id)
      (λ a. ground (arith, find-assign id a rule old m.rules_by_id there, ==ℤ_iff id a))
      (assign-IsKeyed id rule old m.rules_by_id there named v.keyed) v

pub increment-IsValid :
    (m : RuleManager) (id : ℤ) (t : ℕ) → IsValid m → IsValid (increment_rule_match_count m id t).0
unfolding increment_rule_match_count
increment-IsValid m id t v = elim (Option-cases (find id m.rules_by_id)) [
  | inl gone ↦ rw (gone, increment_rule_match_count) v
  | inr (old, there) ↦
      rw (there, increment_rule_match_count)
        (assign-IsValid m id (counted old t) old there (v.keyed id old there) refl v)
]

pub reset_rule-IsValid :
    (m : RuleManager) (id : ℤ) → IsValid m → IsValid (reset_rule_statistics m id).0
unfolding reset_rule_statistics
reset_rule-IsValid m id v = elim (Option-cases (find id m.rules_by_id)) [
  | inl gone ↦ rw (gone, reset_rule_statistics) v
  | inr (old, there) ↦
      rw (there, reset_rule_statistics)
        (assign-IsValid m id (cleared old) old there (v.keyed id old there) refl v)
]

pub reset_all-IsValid : (m : RuleManager) → IsValid m → IsValid (reset_all_rule_statistics m).0
unfolding reset_all_rule_statistics priority_of
reset_all-IsValid m v =
    same_ranks-IsValid m _ (keys-update_all (λ r. cleared r) m.rules_by_id)
      (λ a. elim (Option-cases (find a m.rules_by_id)) [
        | inl gone ↦ ground (arith, find-update_all a (λ r. cleared r) m.rules_by_id)
        | inr (r, there) ↦ ground (arith, find-update_all a (λ r. cleared r) m.rules_by_id)
      ])
      (update_all-IsKeyed (λ r. cleared r) m.rules_by_id (λ r. refl) v.keyed) v

module _ (std : StdSort) where
  rebuild-IsValid :
      (m : RuleManager)
      → IsSorted m.rules_by_id
      → IsKeyed m.rules_by_id
      → IsValid (rebuild_priority_cache std m)
  unfolding rebuild_priority_cache
  rebuild-IsValid m s k = record {
    sorted = s;
    keyed = k;
    cached = λ a. std.count-sort _ _ a;
    ranked = std.sort-Ordered _ _ (higher-StrictWeak m.rules_by_id);
  }

  pub add_rule-IsValid :
      (m : RuleManager) (rule : ClassificationRule) → IsValid m → IsValid (add_rule std m rule).0
  unfolding add_rule
  add_rule-IsValid m rule v = elim (Bool-cases (contains rule.rule_id m.rules_by_id)) [
    | inl there ↦ rw (there, add_rule) v
    | inr gone ↦
        let fresh = find-eq-none rule.rule_id m.rules_by_id gone in
        rw (gone, add_rule)
          (rebuild-IsValid _ (emplace-IsSorted rule.rule_id rule m.rules_by_id v.sorted)
            (emplace-IsKeyed rule m.rules_by_id fresh v.keyed))
  ]

  pub delete_rule-IsValid :
      (m : RuleManager) (id : ℤ) → IsValid m → IsValid (delete_rule std m id).0
  unfolding delete_rule
  delete_rule-IsValid m id v = elim (Bool-cases (contains id m.rules_by_id)) [
    | inl there ↦
        rw (there, delete_rule)
          (rebuild-IsValid _ (erase-IsSorted id m.rules_by_id v.sorted)
            (erase-IsKeyed id m.rules_by_id v.sorted v.keyed))
    | inr gone ↦ rw (gone, delete_rule) v
  ]

  modified-IsValid :
      (m : RuleManager) (id : ℤ) (rule old : ClassificationRule) (b : Bool)
      → find id m.rules_by_id ≡ some old
      → rule.rule_id ≡ id
      → IsValid m
      → IsValid (
          if not (old.priority ==ℤ rule.priority) || b
          then rebuild_priority_cache std (record m { rules_by_id = assign id rule m.rules_by_id })
          else record m { rules_by_id = assign id rule m.rules_by_id })
  modified-IsValid m id rule old b there named v =
      elim (Bool-cases (not (old.priority ==ℤ rule.priority) || b)) [
        | inl rebuilt ↦ rw rebuilt (
            rebuild-IsValid _ (rw (keys-assign id rule m.rules_by_id) v.sorted)
              (assign-IsKeyed id rule old m.rules_by_id there named v.keyed))
        | inr kept ↦ rw kept (
            assign-IsValid m id rule old there named
              (ground (arith, ==ℤ_iff old.priority rule.priority)) v)
      ]

  pub modify_rule-IsValid :
      (m : RuleManager) (id : ℤ) (rule : ClassificationRule)
      → IsValid m
      → IsValid (modify_rule std m id rule).0
  unfolding modify_rule
  modify_rule-IsValid m id rule v = elim (Option-cases (find id m.rules_by_id)) [
    | inl gone ↦ rw (gone, modify_rule) v
    | inr (old, there) ↦
        rw (there, modify_rule)
          (modified-IsValid m id (record rule { rule_id = id }) old _ there refl v)
  ]
