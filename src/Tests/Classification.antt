-- ===== src/Tests/Classification.antt =====
-- Three rules, two of them for one port range, and packets to them.
use mathlib.Core.Option.{some-injective}
use mathlib.Core.Path.{subst}
use packet_classifier.Prelude.{
  ℕ, ◌+◌, ◌%◌, ◌^◌, ◌≡◌, ◌⊎◌, refl, true, false, List, [], ◌∷◌, some, none, map, if◌then◌else◌,
}
use packet_classifier.Prelude.Int.{ℤ, pos, negsuc, ◌==ℤ◌}
use packet_classifier.StdMap.{find, emplace, erase, assign}
use packet_classifier.StdMap.Laws.{count}
use packet_classifier.Text.{Str, codes}
use packet_classifier.Rules.{
  PacketHeader, PacketFilter, any_filter, matches, default_actions, ClassificationRule, make_rule,
  filter_to_string, header_to_string,
}
use packet_classifier.RuleManager.{
  RuleManager, new, get_rule, get_rules_by_priority, delete_rule, add_rule, modify_rule,
  rebuild_priority_cache, higher, priority_of, increment_rule_match_count,
}
use packet_classifier.RuleManager.Invariant.{IsValid}
use packet_classifier.RuleManager.Dictionary.{
  Call, run, apply, promised_run, run-new-IsValid, run-new-Refines,
}
use packet_classifier.BloomFilter.{sized}
use packet_classifier.BloomFilter.Membership
use packet_classifier.Classifier.{
  PacketClassifier, init, classify, classify_batch, result_of, scan, dangling, get_rule_statistics,
}
use packet_classifier.Classifier.Classify.{
  Found, NotFound, matched_state, classify-Found, get_rule_statistics-classify,
}
use packet_classifier.Classifier.Batch.{result_in, classify_batch-map}
use packet_classifier.Classifier.Race.{scan-delete_rule}
use packet_classifier.Classifier.Addresses.{classify-readdressed, readdressed}
use packet_classifier.Classifier.Requests.{Request, serve}
use packet_classifier.Classifier.Guards.{IsCovered}
use packet_classifier.Classifier.Covered.{serve-init}
use packet_classifier.Tests.Sorting.{insertion_sort}

abbrev web : PacketFilter
web = record any_filter {
  source_ip_prefix = codes "10.0.0.0/8";
  dest_port_low = 80;
  dest_port_high = 443;
  protocol = 6;
}

abbrev web_rule : ClassificationRule
web_rule = make_rule (pos 1) (pos 100) web default_actions

abbrev any_rule : ClassificationRule
any_rule = make_rule (pos 2) (negsuc 4) any_filter default_actions

abbrev urgent : ClassificationRule
urgent = record (make_rule (pos 3) (pos 200) web default_actions) { enabled = false }

abbrev https : PacketHeader
https = record { source_ip = 1; dest_ip = 2; source_port = 5000; dest_port = 443; protocol = 6 }

abbrev calls : List Call
calls = Call.add web_rule ∷ Call.add any_rule ∷ Call.add web_rule ∷ Call.add urgent ∷ []

program : Unit {0}
unfolding insertion_sort find emplace erase assign count make_rule add_rule delete_rule modify_rule
    rebuild_priority_cache higher priority_of apply run get_rule get_rules_by_priority
    increment_rule_match_count matches scan classify
program = tt

abbrev stored : RuleManager
stored = (run insertion_sort new calls).0

-- The second rule with id 1 is refused, and the cache falls by priority.
stored_cache : stored.rules_by_priority_cache ≡ pos 3 ∷ pos 1 ∷ pos 2 ∷ []
unfolding program
stored_cache = refl

stored_results : (run insertion_sort new calls).1 ≡ true ∷ true ∷ false ∷ true ∷ []
unfolding program
stored_results = refl

https_text :
    header_to_string https ≡ codes "SrcIP: 1, DstIP: 2, SrcPort: 5000, DstPort: 443, Proto: 6"
unfolding header_to_string
https_text = refl

web_text :
    filter_to_string web
    ≡ codes "SrcIP_Pfx: 10.0.0.0/8, DstIP_Pfx: any, SrcPort: any, DstPort: 80-443, Proto: 6"
unfolding filter_to_string
web_text = refl

run-new-IsValid_example : IsValid (run insertion_sort new calls).0
run-new-IsValid_example = run-new-IsValid insertion_sort calls

run-new-Refines_example :
    ((id : ℤ)
      → get_rule (run insertion_sort new calls).0 id ≡ (promised_run (λ j. none) calls).0 id)
    × ((run insertion_sort new calls).1 ≡ (promised_run (λ j. none) calls).1)
run-new-Refines_example = run-new-Refines insertion_sort calls

abbrev classifier : PacketClassifier
classifier = record { rule_manager = stored; bloom_filter = none }

classify-Found_example : Found classifier https 7 ⊎ NotFound classifier https 7
classify-Found_example = classify-Found classifier https 7 run-new-IsValid_example

https_matched :
    classify classifier https 7 ≡ some (result_of web_rule, matched_state classifier web_rule 7)
unfolding program
https_matched = refl

get_rule_statistics-classify_example :
    get_rule_statistics (matched_state classifier web_rule 7) (pos 1) ≡ (
      if pos 1 ==ℤ pos 1
      then (get_rule_statistics classifier (pos 1) + 1) % 2 ^ 64
      else get_rule_statistics classifier (pos 1))
unfolding program
get_rule_statistics-classify_example =
    get_rule_statistics-classify classifier https 7 (result_of web_rule)
      (matched_state classifier web_rule 7) (pos 1) run-new-IsValid_example https_matched

abbrev packets : List (PacketHeader × ℕ)
packets = (https, 7) ∷ (record https { dest_port = 22 }, 8) ∷ (https, 9) ∷ []

classify_batch-map_example :
    (c' : PacketClassifier) × (classify_batch classifier packets
      ≡ some (map (λ p. result_in classifier p.0) packets, c'))
    × IsValid c'.rule_manager
classify_batch-map_example = classify_batch-map classifier packets run-new-IsValid_example

classify-readdressed_example :
    classify classifier (readdressed https 167772161 9) 7 ≡ classify classifier https 7
classify-readdressed_example = classify-readdressed classifier https 167772161 9 7

scan-delete_rule_example :
    scan
      (delete_rule insertion_sort stored (pos 1)).0.rules_by_id
      https
      (get_rules_by_priority stored)
    ≡ dangling
scan-delete_rule_example =
    scan-delete_rule insertion_sort stored (pos 1) https (pos 3 ∷ []) (pos 2 ∷ [])
      run-new-IsValid_example (unfold program in refl) (unfold program in refl)

abbrev requests : List Request
requests =
    Request.add web_rule
    ∷ Request.packet https 7
    ∷ Request.modify (pos 1) any_rule
    ∷ Request.add urgent
    ∷ Request.reset (pos 1)
    ∷ Request.delete (pos 3)
    ∷ []

abbrev length_hash : Str → ℕ
length_hash [] = 0
length_hash (c ∷ bytes) = c + length_hash bytes

serve-init_example :
    (c : PacketClassifier) × (serve insertion_sort length_hash
        (init (some (sized 64 (pos 3))))
        requests
      ≡ some c)
    × IsCovered length_hash c
serve-init_example =
    serve-init insertion_sort length_hash (some (sized 64 (pos 3))) requests (λ f e.
      subst Membership.IsValid (some-injective _ _ e)
        (Membership.sized-IsValid length_hash 64 (pos 3) []).0)
