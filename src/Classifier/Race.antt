-- ===== src/Classifier/Race.antt =====
-- The snapshot of the pointers and its use as two steps, with a deletion between them. The lock that
-- `classify` holds does not exclude this: `PacketClassifier::deleteRule` has released it when it
-- calls `RuleManager::deleteRule`.
use packet_classifier.Prelude.{◌≡◌, List, [], ◌∷◌, ◌++◌, none, arith, if◌then◌else◌}
use packet_classifier.Prelude.Int.{ℤ, ◌==ℤ◌, ==ℤ_iff}
use packet_classifier.StdMap.{find}
use packet_classifier.StdSort.{StdSort}
use packet_classifier.Rules.{PacketHeader}
use packet_classifier.RuleManager.{
  RuleManager, RuleMap, get_rules_by_priority, delete_rule, get_rule,
}
use packet_classifier.RuleManager.Invariant.{IsValid}
use packet_classifier.RuleManager.Dictionary.{Call, apply, promised, apply-Refines}
use packet_classifier.Classifier.{dangling, no_rule, scan}

scan_erased :
    (rules rules' : RuleMap) (id : ℤ) (h : PacketHeader) (before after : List ℤ)
    → ((j : ℤ) → find j rules' ≡ (if id ==ℤ j then none else find j rules))
    → scan rules h before ≡ no_rule
    → scan rules' h (before ++ id ∷ after) ≡ dangling
unfolding scan
scan_erased rules rules' id h [] after gone passed = ground (arith, gone id, ==ℤ_iff id id)
scan_erased rules rules' id h (p ∷ before) after gone passed =
    ground (arith, gone p, ==ℤ_iff id p, scan_erased rules rules' id h before after gone)

-- A rule that is deleted between the snapshot and the loop is read through a dangling pointer, by
-- every packet to which no rule ahead of it in the snapshot applies.
pub scan-delete_rule :
    (std : StdSort) (m : RuleManager) (id : ℤ) (h : PacketHeader) (before after : List ℤ)
    → IsValid m
    → get_rules_by_priority m ≡ before ++ id ∷ after
    → scan m.rules_by_id h before ≡ no_rule
    → scan (delete_rule std m id).0.rules_by_id h (get_rules_by_priority m) ≡ dangling
scan-delete_rule std m id h before after v e passed =
    let does = apply-Refines std m (Call.delete id) v in
    rw e (
      scan_erased m.rules_by_id _ id h before after
        (λ j. unfold apply promised get_rule in ground (arith, does.0 j, ==ℤ_iff id j)) passed)
