-- ===== src/Rules.antt =====
-- The data of include/packet_classifier.h: headers, filters, actions, rules and results, with
-- their printing in src/packet_classifier.cpp. The unsigned fields are numbers, `int` is ℤ.
pub mod Matching
use packet_classifier.Prelude.{
  ℕ, Bool, true, false, ◌&&◌, ◌||◌, not, List, [], ◌∷◌, ◌++◌, ltb, ◌==◌, if◌then◌else◌,
}
use packet_classifier.Prelude.Int.{ℤ, negsuc}
use packet_classifier.Text.{Str, codes, is_empty, to_string, to_string_ℤ}

pub record PacketHeader : Type 0 where
  pub source_ip : ℕ
  pub dest_ip : ℕ
  pub source_port : ℕ
  pub dest_port : ℕ
  pub protocol : ℕ

pub record PacketFilter : Type 0 where
  pub source_ip_prefix : Str
  pub dest_ip_prefix : Str
  pub source_port_low : ℕ
  pub source_port_high : ℕ
  pub dest_port_low : ℕ
  pub dest_port_high : ℕ
  pub protocol : ℕ

-- The default constructor: a filter that any packet passes.
abbrev pub any_filter : PacketFilter
any_filter = record {
  source_ip_prefix = [];
  dest_ip_prefix = [];
  source_port_low = 0;
  source_port_high = 0;
  dest_port_low = 0;
  dest_port_high = 0;
  protocol = 0;
}

-- The test of one port: `low != 0 || high != 0` says that the filter sets a range.
abbrev pub port_rejected : ℕ → ℕ → ℕ → Bool
port_rejected low high port = (not (low == 0) || not (high == 0)) && (ltb port low || ltb high port)

-- `PacketFilter::matches`. The two blocks on the prefixes are empty in the source.
unfoldable pub matches : PacketFilter → PacketHeader → Bool
matches f h =
    if not (f.protocol == 0) && not (f.protocol == h.protocol)
    then false
    else if port_rejected f.source_port_low f.source_port_high h.source_port
    then false
    else if port_rejected f.dest_port_low f.dest_port_high h.dest_port
    then false
    else true

pub data ActionType : Type 0 where
  forward drop log mirror : ActionType

pub record ActionList : Type 0 where
  pub primary_action : ActionType
  pub next_hop_id : ℤ
  pub log_identifier : Str

abbrev pub default_actions : ActionList
default_actions = record { primary_action = drop; next_hop_id = negsuc 0; log_identifier = [] }

pub record ClassificationRule : Type 0 where
  pub rule_id : ℤ
  pub priority : ℤ
  pub filter : PacketFilter
  pub actions : ActionList
  pub enabled : Bool
  pub match_count : ℕ
  pub last_match_time : ℕ

-- The constructor of a rule.
unfoldable pub make_rule : ℤ → ℤ → PacketFilter → ActionList → ClassificationRule
make_rule id prio f a = record {
  rule_id = id;
  priority = prio;
  filter = f;
  actions = a;
  enabled = true;
  match_count = 0;
  last_match_time = 0;
}

pub record ClassificationResult : Type 0 where
  pub matched : Bool
  pub matched_rule_id : ℤ
  pub actions : ActionList

-- A result as it is declared, before a rule is found.
abbrev pub no_match : ClassificationResult
no_match = record { matched = false; matched_rule_id = negsuc 0; actions = default_actions }

-- `PacketHeader::toString`
unfoldable pub header_to_string : PacketHeader → Str
unfolding to_string
header_to_string h =
    codes "SrcIP: "
    ++ (to_string h.source_ip
        ++ (codes ", DstIP: "
            ++ (to_string h.dest_ip
                ++ (codes ", SrcPort: "
                    ++ (to_string h.source_port
                        ++ (codes ", DstPort: "
                            ++ (to_string h.dest_port
                                ++ (codes ", Proto: " ++ to_string h.protocol))))))))

prefix_to_string : Str → Str
prefix_to_string p = if is_empty p then codes "any" else p

range_to_string : ℕ → ℕ → Str
range_to_string low high =
    if low == 0 && high == 0 then codes "any" else to_string low ++ (codes "-" ++ to_string high)

-- `PacketFilter::toString`
unfoldable pub filter_to_string : PacketFilter → Str
unfolding prefix_to_string range_to_string to_string
filter_to_string f =
    codes "SrcIP_Pfx: "
    ++ (prefix_to_string f.source_ip_prefix
        ++ (codes ", DstIP_Pfx: "
            ++ (prefix_to_string f.dest_ip_prefix
                ++ (codes ", SrcPort: "
                    ++ (range_to_string f.source_port_low f.source_port_high
                        ++ (codes ", DstPort: "
                            ++ (range_to_string f.dest_port_low f.dest_port_high
                                ++ (codes ", Proto: "
                                    ++ (if f.protocol == 0
                                        then codes "any"
                                        else to_string f.protocol)))))))))

-- `ActionList::toString`
unfoldable pub actions_to_string : ActionList → Str
unfolding to_string_ℤ
actions_to_string a = elim a.primary_action [
  | forward ↦ codes "FORWARD (NextHop: " ++ (to_string_ℤ a.next_hop_id ++ codes ")")
  | drop ↦ codes "DROP"
  | log ↦ codes "LOG (ID: " ++ (a.log_identifier ++ codes ")")
  | mirror ↦ codes "MIRROR"
]

newline : Str
newline = 10 ∷ []

-- `ClassificationRule::toString`
unfoldable pub rule_to_string : ClassificationRule → Str
unfolding filter_to_string actions_to_string newline
rule_to_string r =
    codes "RuleID: "
    ++ (to_string_ℤ r.rule_id
        ++ (codes ", Prio: "
            ++ (to_string_ℤ r.priority
                ++ (codes ", Enabled: "
                    ++ ((if r.enabled then codes "Yes" else codes "No")
                        ++ (newline
                            ++ (codes "  Filter: "
                                ++ (filter_to_string r.filter
                                    ++ (newline
                                        ++ (codes "  Actions: "
                                            ++ (actions_to_string r.actions
                                                ++ (newline
                                                    ++ (codes "  Matches: "
                                                        ++ (to_string r.match_count
                                                            ++ (codes ", LastMatch: "
                                                            ++ to_string
                                                            r.last_match_time)))))))))))))))

-- `ClassificationResult::toString`
unfoldable pub result_to_string : ClassificationResult → Str
unfolding actions_to_string newline
result_to_string r =
    if not r.matched
    then codes "No Match"
    else codes "Matched RuleID: "
      ++ (to_string_ℤ r.matched_rule_id
          ++ (newline ++ (codes "  Actions: " ++ actions_to_string r.actions)))
