-- ===== src/Classifier/Classify.antt =====
-- `classify` of src/packet_classifier.cpp on a valid manager: its result and the counters after
-- it.
use mathlib.Core.Path.{subst}
use packet_classifier.Prelude.{
  ℕ, ◌+◌, ◌%◌, ◌^◌, ◌<◌, ◌≡◌, refl, sym, ◌⊎◌, inl, inr, ◌&&◌, some, arith, Option-cases,
  if◌then◌else◌,
}
use packet_classifier.Prelude.Int.{ℤ, ◌≤ℤ◌, ◌==ℤ◌, ==ℤ_iff}
use packet_classifier.StdMap.{find, assign, contains}
use packet_classifier.StdMap.Laws.{count, count-keys, find-assign}
use packet_classifier.Rules.{PacketHeader, ClassificationRule, ClassificationResult, no_match}
use packet_classifier.RuleManager.{
  RuleManager, RuleMap, counted, increment_rule_match_count, get_rules_by_priority, get_rule,
}
use packet_classifier.RuleManager.Invariant.{IsValid, increment-IsValid}
use packet_classifier.Classifier.{PacketClassifier, result_of, classify, get_rule_statistics}
use packet_classifier.Classifier.Scan.{Applies, Live, scan-Best}

-- In a valid manager the pointers of the cache are those to the rules.
pub count-cache :
    (m : RuleManager) (k : ℤ) (r : ClassificationRule)
    → IsValid m
    → find k m.rules_by_id ≡ some r
    → 0 < count k m.rules_by_priority_cache
count-cache m k r v e =
    rw (v.cached k, count-keys k m.rules_by_id v.sorted, e, contains) (omega arith)

pub cache-Live : (m : RuleManager) → IsValid m → Live m.rules_by_id m.rules_by_priority_cache
cache-Live m v p lt = elim (Option-cases (find p m.rules_by_id)) [
  | inr found ↦ found
  | inl gone ↦
      absurd
        (ground (arith, v.cached p, rw (gone, contains) at (count-keys p m.rules_by_id v.sorted)))
]

pub find-rule_id :
    (m : RuleManager) (k : ℤ) (r : ClassificationRule)
    → IsValid m
    → find k m.rules_by_id ≡ some r
    → find r.rule_id m.rules_by_id ≡ some r
find-rule_id m k r v e = subst (λ x. find x m.rules_by_id ≡ some r) (sym (v.keyed k r e)) e

-- The rule `r` under the id `k` applies, and no rule that applies has a higher priority.
pub record Highest (rules : RuleMap) (h : PacketHeader) (k : ℤ) (r : ClassificationRule)
    : Type 0 where
  pub applies : Applies rules h k r
  pub highest : (q : ℤ) (s : ClassificationRule) → Applies rules h q s → s.priority ≤ℤ r.priority

-- The state after a packet has matched the rule `r`.
abbrev pub matched_state : PacketClassifier → ClassificationRule → ℕ → PacketClassifier
matched_state c r now = record c {
  rule_manager = record (c.rule_manager) {
    rules_by_id = assign r.rule_id (counted r now) c.rule_manager.rules_by_id;
  };
}

abbrev pub Found : PacketClassifier → PacketHeader → ℕ → Type 0
Found c h now =
    (k : ℤ) × (r : ClassificationRule) × Highest c.rule_manager.rules_by_id h k r
    × (classify c h now ≡ some (result_of r, matched_state c r now))

abbrev pub NotFound : PacketClassifier → PacketHeader → ℕ → Type 0
NotFound c h now =
    ((k : ℤ) (r : ClassificationRule) → ¬ Applies c.rule_manager.rules_by_id h k r)
    × (classify c h now ≡ some (no_match, c))

-- In a valid manager `classify` succeeds. Where an enabled rule matches the packet, it gives one of
-- the highest priority and counts the match on it; where none does, it gives `no_match` and changes
-- nothing.
pub classify-Found :
    (c : PacketClassifier) (h : PacketHeader) (now : ℕ)
    → IsValid c.rule_manager
    → Found c h now ⊎ NotFound c h now
unfolding classify get_rules_by_priority increment_rule_match_count
classify-Found c h now v =
    let m = c.rule_manager in
    elim (scan-Best m.rules_by_id h m.rules_by_priority_cache (cache-Live m v) v.ranked) [
      | inl (k, r, found, applies, best) ↦ inl (
        k,
        r,
        record { applies = applies; highest = λ q s a. best q s (count-cache m q s v a.0) a },
        rw (found, classify) (rw (find-rule_id m k r v applies.0, increment_rule_match_count) refl),
      )
      | inr (found, unmatched) ↦
          inr (λ k r a. unmatched k r (count-cache m k r v a.0) a, rw (found, classify) refl)
    ]

pub classify-IsValid :
    (c : PacketClassifier) (h : PacketHeader) (now : ℕ) (r : ClassificationResult)
    (c' : PacketClassifier)
    → IsValid c.rule_manager
    → classify c h now ≡ some (r, c')
    → IsValid c'.rule_manager
unfolding increment_rule_match_count
classify-IsValid c h now r c' v e = elim (classify-Found c h now v) [
  | inl (k, s, top, found) ↦
      let same : matched_state c s now ≡ c' = cc in
      let there = find-rule_id c.rule_manager k s v top.applies.0 in
      let kept = increment-IsValid c.rule_manager s.rule_id now v in
      subst (λ (x : PacketClassifier). IsValid x.rule_manager) same
        (rw (there, increment_rule_match_count) at kept)
  | inr (unmatched, found) ↦
      let same : c ≡ c' = cc in subst (λ (x : PacketClassifier). IsValid x.rule_manager) same v
]

-- A match is counted, modulo 2 ^ 64, on the rule of the result and on no other.
pub get_rule_statistics-classify :
    (c : PacketClassifier) (h : PacketHeader) (now : ℕ) (r : ClassificationResult)
    (c' : PacketClassifier) (id : ℤ)
    → IsValid c.rule_manager
    → classify c h now ≡ some (r, c')
    → get_rule_statistics c' id ≡ (
        if r.matched && r.matched_rule_id ==ℤ id
        then (get_rule_statistics c id + 1) % 2 ^ 64
        else get_rule_statistics c id)
unfolding get_rule_statistics get_rule
get_rule_statistics-classify c h now r c' id v e = elim (classify-Found c h now v) [
  | inl (k, s, top, found) ↦ ground (
    arith,
    find-rule_id c.rule_manager k s v top.applies.0,
    find-assign s.rule_id id (counted s now) s c.rule_manager.rules_by_id
        (find-rule_id c.rule_manager k s v top.applies.0),
    ==ℤ_iff s.rule_id id,
  )
  | inr (unmatched, found) ↦ ground arith
]
