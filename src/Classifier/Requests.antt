-- ===== src/Classifier/Requests.antt =====
-- A sequence of requests to a classifier, as one caller makes it; `none` is undefined behaviour.
use mathlib.Core.Option
use packet_classifier.Prelude.{ℕ, List, [], ◌∷◌, Option, none, some}
use packet_classifier.Prelude.Int.{ℤ}
use packet_classifier.StdSort.{StdSort}
use packet_classifier.Text.{Str}
use packet_classifier.Rules.{PacketHeader, ClassificationRule}
use packet_classifier.Classifier.{
  PacketClassifier, classify, add_rule, delete_rule, modify_rule, reset_statistics,
  reset_rule_statistics,
}

-- A request to the classifier that may change its state.
pub data Request : Type 0 where
  add : ClassificationRule → Request
  delete : ℤ → Request
  modify : ℤ → ClassificationRule → Request
  packet : PacketHeader → ℕ → Request
  reset : ℤ → Request
  reset_all : Request

module _ (std : StdSort) (std_hash : Str → ℕ) where
  unfoldable pub handle : PacketClassifier → Request → Option PacketClassifier
  handle c (add rule) = some (add_rule std std_hash c rule).0
  handle c (delete id) = some (delete_rule std std_hash c id).0
  handle c (modify id rule) = some (modify_rule std std_hash c id rule).0
  handle c (packet h now) = Option.map (λ t. t.1) (classify c h now)
  handle c (reset id) = some (reset_rule_statistics c id)
  handle c reset_all = some (reset_statistics c)

  unfoldable pub serve : PacketClassifier → List Request → Option PacketClassifier
  serve c [] = some c
  serve c (q ∷ qs) = elim (handle c q) [ none ↦ none | some c' ↦ serve c' qs ]
