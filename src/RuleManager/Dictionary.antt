-- ===== src/RuleManager/Dictionary.antt =====
-- The manager against an abstract dictionary, a function from ids to rules.
use mathlib.Core.Path.{fun_ext, ap, ap₂}
use packet_classifier.Prelude.{
  ℕ, ◌≡◌, refl, ◌∙◌, Bool, true, false, List, [], ◌∷◌, Option, none, some, arith, Option-cases, inl,
  inr, if◌then◌else◌,
}
use packet_classifier.Prelude.Int.{ℤ, ◌==ℤ◌}
use packet_classifier.StdMap.{find, contains}
use packet_classifier.StdMap.Laws.{
  count, find-emplace, find-erase, find-assign, find-update_all, count-keys,
}
use packet_classifier.StdSort.{StdSort}
use packet_classifier.Rules.{ClassificationRule}
use packet_classifier.RuleManager.{
  RuleManager, new, counted, cleared, rebuild_priority_cache, add_rule, delete_rule, modify_rule,
  increment_rule_match_count, reset_rule_statistics, reset_all_rule_statistics, get_rule,
  get_rules_by_priority,
}
use packet_classifier.RuleManager.Invariant.{
  IsValid, IsRanked, add_rule-IsValid, delete_rule-IsValid, modify_rule-IsValid, increment-IsValid,
  reset_rule-IsValid, reset_all-IsValid,
}

-- A call of a method that changes the state.
pub data Call : Type 0 where
  add : ClassificationRule → Call
  delete : ℤ → Call
  modify : ℤ → ClassificationRule → Call
  increment : ℤ → ℕ → Call
  reset : ℤ → Call
  reset_all : Call

unfoldable pub apply : StdSort → RuleManager → Call → RuleManager × Bool
apply std m (add rule) = add_rule std m rule
apply std m (delete id) = delete_rule std m id
apply std m (modify id rule) = modify_rule std m id rule
apply std m (increment id t) = increment_rule_match_count m id t
apply std m (reset id) = reset_rule_statistics m id
apply std m reset_all = reset_all_rule_statistics m

unfoldable pub run : StdSort → RuleManager → List Call → RuleManager × List Bool
run std m [] = (m, [])
run std m (c ∷ cs) =
    let (m', done) = apply std m c in let (m'', results) = run std m' cs in (m'', done ∷ results)

abbrev pub Dictionary : Type 0
Dictionary = ℤ → Option ClassificationRule

abbrev pub update : Dictionary → ℤ → Option ClassificationRule → Dictionary
update d k v j = if k ==ℤ j then v else d j

-- A change of the rule under an id, where there is one.
abbrev pub alter :
    Dictionary → ℤ → (ClassificationRule → Option ClassificationRule) → Dictionary × Bool
alter d id f = elim (d id) [ none ↦ (d, false) | some r ↦ (update d id (f r), true) ]

-- What each method promises.
unfoldable pub promised : Dictionary → Call → Dictionary × Bool
promised d (add rule) = elim (d rule.rule_id) [
  | none ↦ (update d rule.rule_id (some rule), true)
  | some r ↦ (d, false)
]
promised d (delete id) = alter d id (λ r. none)
promised d (modify id rule) = alter d id (λ r. some (record rule { rule_id = id }))
promised d (increment id t) = alter d id (λ r. some (counted r t))
promised d (reset id) = alter d id (λ r. some (cleared r))
promised d reset_all = (λ j. elim (d j) [ none ↦ none | some r ↦ some (cleared r) ], true)

pub promised_run : Dictionary → List Call → Dictionary × List Bool
promised_run d [] = (d, [])
promised_run d (c ∷ cs) =
    let (d', done) = promised d c in
    let (d'', results) = promised_run d' cs in (d'', done ∷ results)

abbrev pub Refines : RuleManager × Bool → Dictionary × Bool → Type 0
Refines r s = ((j : ℤ) → get_rule r.0 j ≡ s.0 j) × (r.1 ≡ s.1)

module _ (std : StdSort) where
  pub apply-IsValid : (m : RuleManager) (c : Call) → IsValid m → IsValid (apply std m c).0
  unfolding apply
  apply-IsValid m (add rule) v = add_rule-IsValid std m rule v
  apply-IsValid m (delete id) v = delete_rule-IsValid std m id v
  apply-IsValid m (modify id rule) v = modify_rule-IsValid std m id rule v
  apply-IsValid m (increment id t) v = increment-IsValid m id t v
  apply-IsValid m (reset id) v = reset_rule-IsValid m id v
  apply-IsValid m reset_all v = reset_all-IsValid m v

  run-IsValid : (m : RuleManager) (cs : List Call) → IsValid m → IsValid (run std m cs).0
  unfolding run
  run-IsValid m [] v = v
  run-IsValid m (c ∷ cs) v = run-IsValid (apply std m c).0 cs (apply-IsValid m c v)

  pub new-IsValid : IsValid new
  unfolding find
  new-IsValid = record {
    sorted = tt;
    keyed = λ k r e. absurd (ground arith);
    cached = λ a. refl;
    ranked = tt;
  }

  -- After any calls the cache has a pointer to each rule, once, and no other, by falling priority.
  pub run-new-IsValid : (cs : List Call) → IsValid (run std new cs).0
  run-new-IsValid cs = run-IsValid new cs new-IsValid

  pub apply-Refines :
      (m : RuleManager) (c : Call) → IsValid m → Refines (apply std m c) (promised (get_rule m) c)
  unfolding apply promised get_rule add_rule delete_rule modify_rule increment_rule_match_count
      reset_rule_statistics reset_all_rule_statistics rebuild_priority_cache
  apply-Refines m (add rule) v = elim (Option-cases (find rule.rule_id m.rules_by_id)) [
    | inl gone ↦
        (λ j. ground (arith, find-emplace rule.rule_id j rule m.rules_by_id gone), ground arith)
    | inr (r, there) ↦ (λ j. ground arith, ground arith)
  ]
  apply-Refines m (delete id) v = elim (Option-cases (find id m.rules_by_id)) [
    | inl gone ↦ (λ j. ground arith, ground arith)
    | inr (r, there) ↦ (λ j. ground (arith, find-erase id j m.rules_by_id v.sorted), ground arith)
  ]
  apply-Refines m (modify id rule) v = elim (Option-cases (find id m.rules_by_id)) [
    | inl gone ↦ (λ j. ground arith, ground arith)
    | inr (r, there) ↦ (
      λ j. ground (arith, find-assign id j (record rule { rule_id = id }) r m.rules_by_id there),
      ground arith,
    )
  ]
  apply-Refines m (increment id t) v = elim (Option-cases (find id m.rules_by_id)) [
    | inl gone ↦ (λ j. ground arith, ground arith)
    | inr (r, there) ↦
        (λ j. ground (arith, find-assign id j (counted r t) r m.rules_by_id there), ground arith)
  ]
  apply-Refines m (reset id) v = elim (Option-cases (find id m.rules_by_id)) [
    | inl gone ↦ (λ j. ground arith, ground arith)
    | inr (r, there) ↦
        (λ j. ground (arith, find-assign id j (cleared r) r m.rules_by_id there), ground arith)
  ]
  apply-Refines m reset_all v = (
    λ j. elim (Option-cases (find j m.rules_by_id)) [
      | inl gone ↦ ground (arith, find-update_all j (λ r. cleared r) m.rules_by_id)
      | inr (r, there) ↦ ground (arith, find-update_all j (λ r. cleared r) m.rules_by_id)
    ],
    refl,
  )

  run-Refines :
      (m : RuleManager) (d : Dictionary) (cs : List Call)
      → IsValid m
      → get_rule m ≡ d
      → (get_rule (run std m cs).0 ≡ (promised_run d cs).0)
        × ((run std m cs).1 ≡ (promised_run d cs).1)
  unfolding run promised_run
  run-Refines m d [] v e = (e, refl)
  run-Refines m d (c ∷ cs) v e =
      let one = rw e at (apply-Refines m c v) in
      let rest =
        run-Refines (apply std m c).0 (promised d c).0 cs (apply-IsValid m c v) (fun_ext one.0) in
      (rest.0, ap₂ ◌∷◌ one.1 rest.1)

  -- After any calls from the empty manager, every lookup and every returned Boolean are those of
  -- the dictionary.
  pub run-new-Refines :
      (cs : List Call)
      → ((id : ℤ) → get_rule (run std new cs).0 id ≡ (promised_run (λ j. none) cs).0 id)
        × ((run std new cs).1 ≡ (promised_run (λ j. none) cs).1)
  run-new-Refines cs =
      let r =
        run-Refines new (λ j. none) cs new-IsValid (fun_ext (λ j. unfold get_rule find in refl)) in
      (λ id. ap (λ (f : Dictionary). f id) r.0, r.1)

  -- The snapshot of a valid manager has each stored id once, no other, and falls in priority.
  pub get_rules_by_priority-IsRanked :
      (m : RuleManager)
      → IsValid m
      → ((id : ℤ)
          → count id (get_rules_by_priority m) ≡ (if contains id m.rules_by_id then 1 else 0))
        × IsRanked m.rules_by_id (get_rules_by_priority m)
  unfolding get_rules_by_priority
  get_rules_by_priority-IsRanked m v =
      (λ id. v.cached id ∙ count-keys id m.rules_by_id v.sorted, v.ranked)
