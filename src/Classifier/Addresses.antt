-- ===== src/Classifier/Addresses.antt =====
-- `classify` of src/packet_classifier.cpp on packets that differ in their addresses.
use packet_classifier.Prelude.{ℕ, ◌≡◌, refl, List, [], ◌∷◌, arith}
use packet_classifier.Prelude.Int.{ℤ}
use packet_classifier.Rules.{PacketHeader, matches}
use packet_classifier.RuleManager.{RuleMap, get_rules_by_priority}
use packet_classifier.Classifier.{PacketClassifier, scan, classify}

abbrev pub readdressed : PacketHeader → ℕ → ℕ → PacketHeader
readdressed h source dest = record h { source_ip = source; dest_ip = dest }

scan-readdressed :
    (rules : RuleMap) (h : PacketHeader) (source dest : ℕ) (ps : List ℤ)
    → scan rules (readdressed h source dest) ps ≡ scan rules h ps
unfolding scan matches
scan-readdressed rules h source dest [] = refl
scan-readdressed rules h source dest (p ∷ ps) =
    ground (arith, scan-readdressed rules h source dest ps)

-- A packet is classified alike whatever its addresses, although rules have address prefixes.
pub classify-readdressed :
    (c : PacketClassifier) (h : PacketHeader) (source dest now : ℕ)
    → classify c (readdressed h source dest) now ≡ classify c h now
unfolding classify
classify-readdressed c h source dest now =
    let m = c.rule_manager in
    ground (arith, scan-readdressed m.rules_by_id h source dest (get_rules_by_priority m))
