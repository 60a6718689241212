-- ===== src/Classifier/Batch.antt =====
-- `classifyBatch` of src/packet_classifier.cpp against `classify` on each packet.
use mathlib.Core.Path.{fun_ext}
use packet_classifier.Prelude.{ℕ, ◌≡◌, refl, inl, inr, List, [], ◌∷◌, some, map, arith}
use packet_classifier.Prelude.Int.{ℤ, ==ℤ_iff}
use packet_classifier.StdMap.{find, assign}
use packet_classifier.StdMap.Laws.{find-assign}
use packet_classifier.Rules.{PacketHeader, ClassificationRule, ClassificationResult, no_match}
use packet_classifier.RuleManager.{RuleMap, counted, get_rules_by_priority}
use packet_classifier.RuleManager.Invariant.{IsValid}
use packet_classifier.Classifier.{
  PacketClassifier, Verdict, dangling, no_rule, hit, scan, result_of, classify, classify_batch,
}
use packet_classifier.Classifier.Classify.{
  matched_state, classify-Found, classify-IsValid, find-rule_id,
}

abbrev outcome : Verdict → ClassificationResult
outcome dangling = no_match
outcome no_rule = no_match
outcome (hit r) = result_of r

-- The result of a packet, which depends on the rules and the cache alone.
pub result_in : PacketClassifier → PacketHeader → ClassificationResult
result_in c h = outcome (scan c.rule_manager.rules_by_id h (get_rules_by_priority c.rule_manager))

outcome-counted :
    (rules : RuleMap) (id : ℤ) (s : ClassificationRule) (now : ℕ) (h : PacketHeader) (ps : List ℤ)
    → find id rules ≡ some s
    → outcome (scan (assign id (counted s now) rules) h ps) ≡ outcome (scan rules h ps)
unfolding scan
outcome-counted rules id s now h [] there = refl
outcome-counted rules id s now h (p ∷ ps) there = ground (
  arith,
  find-assign id p (counted s now) s rules there,
  ==ℤ_iff id p,
  outcome-counted rules id s now h ps there,
)

result_in-classify :
    (c : PacketClassifier) (h : PacketHeader) (now : ℕ) (r : ClassificationResult)
    (c' : PacketClassifier)
    → classify c h now ≡ some (r, c')
    → r ≡ result_in c h
unfolding classify result_in
result_in-classify c h now r c' e = ground arith

classify-result_in :
    (c : PacketClassifier) (h : PacketHeader) (now : ℕ)
    → IsValid c.rule_manager
    → (c' : PacketClassifier) × (classify c h now ≡ some (result_in c h, c'))
      × IsValid c'.rule_manager
      × ((g : PacketHeader) → result_in c' g ≡ result_in c g)
unfolding get_rules_by_priority
classify-result_in c h now v = elim (classify-Found c h now v) [
  | inl (k, r, top, found) ↦
      let m = c.rule_manager in
      (
        matched_state c r now,
        rw (← result_in-classify c h now _ _ found) found,
        classify-IsValid c h now _ _ v found,
        λ g.
            unfold result_in in
            outcome-counted m.rules_by_id r.rule_id r now g m.rules_by_priority_cache
              (find-rule_id m k r v top.applies.0),
      )
  | inr (unmatched, found) ↦ (c, rw (← result_in-classify c h now _ _ found) found, v, λ g. refl)
]

-- A valid classifier serves every batch, and its results are those that the packets have in the
-- state before the batch, in order.
pub classify_batch-map :
    (c : PacketClassifier) (packets : List (PacketHeader × ℕ))
    → IsValid c.rule_manager
    → (c' : PacketClassifier) × (classify_batch c packets
        ≡ some (map (λ p. result_in c p.0) packets, c'))
      × IsValid c'.rule_manager
unfolding classify_batch
classify_batch-map c [] v = (c, refl, v)
classify_batch-map c ((h, now) ∷ packets) v =
    let (c', does, v', same) = classify-result_in c h now v in
    let (last, rest, w) = classify_batch-map c' packets v' in
    (last, rw (does, classify_batch) (rw rest (rw (fun_ext same))), w)
