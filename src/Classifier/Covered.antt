-- ===== src/Classifier/Covered.antt =====
-- The requests of src/packet_classifier.cpp and the Bloom filter of the classifier.
use packet_classifier.Prelude.{
  ℕ, ◌≡◌, refl, sym, ◌∙◌, inl, inr, List, [], ◌∷◌, Option, some, arith, Option-cases, map-eq-some,
}
use packet_classifier.Prelude.Int.{ℤ}
use packet_classifier.StdMap.{find}
use packet_classifier.StdMap.Laws.{find-update_all}
use packet_classifier.StdSort.{StdSort}
use packet_classifier.Text.{Str}
use packet_classifier.Rules.{PacketHeader, ClassificationRule}
use packet_classifier.RuleManager
use packet_classifier.RuleManager.{RuleManager, RuleMap, get_rule}
use packet_classifier.RuleManager.Invariant.{
  add_rule-IsValid, delete_rule-IsValid, modify_rule-IsValid, reset_rule-IsValid, reset_all-IsValid,
}
use packet_classifier.RuleManager.Dictionary.{Call, apply, promised, apply-Refines, new-IsValid}
use packet_classifier.BloomFilter.{BloomFilter}
use packet_classifier.BloomFilter.Membership
use packet_classifier.Classifier.{
  PacketClassifier, init, add_rule, delete_rule, modify_rule, reset_statistics,
  reset_rule_statistics,
}
use packet_classifier.Classifier.Classify.{
  classify-Found, classify-IsValid, find-rule_id, matched_state,
}
use packet_classifier.Classifier.Requests.{
  Request, add, delete, modify, packet, reset, reset_all, handle, serve,
}
use packet_classifier.Classifier.Guards.{
  assign-Inherited, IsCovered, inherit, learned, learned-Guards,
}

module _ (std : StdSort) (std_hash : Str → ℕ) where
  abbrev Handled : PacketClassifier → Request → Type 0
  Handled c q =
      (c' : PacketClassifier) × (handle std std_hash c q ≡ some c') × IsCovered std_hash c'

  add_rule-state :
      (c : PacketClassifier) (rule : ClassificationRule)
      → let done = RuleManager.add_rule std c.rule_manager rule in
        (add_rule std std_hash c rule).0 ≡ record c {
          rule_manager = done.0;
          bloom_filter = learned std_hash done.1 rule c.bloom_filter;
        }
  unfolding add_rule
  add_rule-state c rule = ground arith

  delete_rule-state :
      (c : PacketClassifier) (id : ℤ)
      → (delete_rule std std_hash c id).0
        ≡ record c { rule_manager = (RuleManager.delete_rule std c.rule_manager id).0 }
  unfolding delete_rule
  delete_rule-state c id = ground arith

  modify_rule-state :
      (c : PacketClassifier) (id : ℤ) (rule : ClassificationRule)
      → let done = RuleManager.modify_rule std c.rule_manager id rule in
        (modify_rule std std_hash c id rule).0 ≡ record c {
          rule_manager = done.0;
          bloom_filter = learned std_hash done.1 rule c.bloom_filter;
        }
  unfolding modify_rule
  modify_rule-state c id rule = ground arith

  add-IsCovered :
      (c : PacketClassifier) (rule : ClassificationRule)
      → IsCovered std_hash c
      → IsCovered std_hash (add_rule std std_hash c rule).0
  unfolding apply promised get_rule
  add-IsCovered c rule v =
      let m = c.rule_manager in
      let does = apply-Refines std m (Call.add rule) v.manager in
      rw (add_rule-state c rule) (record {
        manager = add_rule-IsValid std m rule v.manager;
        bloom =
            learned-Guards std_hash (RuleManager.add_rule std m rule).1 c.bloom_filter rule
              m.rules_by_id _ (λ k r there. ground (arith, does.0 k, does.1)) v.bloom;
      })

  delete-IsCovered :
      (c : PacketClassifier) (id : ℤ)
      → IsCovered std_hash c
      → IsCovered std_hash (delete_rule std std_hash c id).0
  unfolding apply promised get_rule
  delete-IsCovered c id v =
      let m = c.rule_manager in
      let does = apply-Refines std m (Call.delete id) v.manager in
      rw (delete_rule-state c id) (record {
        manager = delete_rule-IsValid std m id v.manager;
        bloom =
            inherit std_hash c.bloom_filter m.rules_by_id _
              (λ k r there. (r, ground (arith, does.0 k), refl, refl)) v.bloom;
      })

  modify-IsCovered :
      (c : PacketClassifier) (id : ℤ) (rule : ClassificationRule)
      → IsCovered std_hash c
      → IsCovered std_hash (modify_rule std std_hash c id rule).0
  unfolding apply promised get_rule
  modify-IsCovered c id rule v =
      let m = c.rule_manager in
      let does = apply-Refines std m (Call.modify id rule) v.manager in
      rw (modify_rule-state c id rule) (record {
        manager = modify_rule-IsValid std m id rule v.manager;
        bloom =
            learned-Guards std_hash (RuleManager.modify_rule std m id rule).1 c.bloom_filter rule
              m.rules_by_id _ (λ k r there. ground (arith, does.0 k, does.1)) v.bloom;
      })

  packet-Handled :
      (c : PacketClassifier) (h : PacketHeader) (now : ℕ)
      → IsCovered std_hash c
      → Handled c (packet h now)
  unfolding handle
  packet-Handled c h now v =
      let m = c.rule_manager in
      elim (classify-Found c h now v.manager) [
        | inl (k, r, top, found) ↦ (
          matched_state c r now,
          rw found,
          record {
            manager = classify-IsValid c h now _ _ v.manager found;
            bloom =
                inherit std_hash c.bloom_filter m.rules_by_id _
                  (assign-Inherited r.rule_id (RuleManager.counted r now) r m.rules_by_id
                    (find-rule_id m k r v.manager top.applies.0) refl refl)
                  v.bloom;
          },
        )
        | inr (unmatched, found) ↦ (c, rw found, v)
      ]

  reset-IsCovered :
      (c : PacketClassifier) (id : ℤ)
      → IsCovered std_hash c
      → IsCovered std_hash (reset_rule_statistics c id)
  unfolding reset_rule_statistics RuleManager.reset_rule_statistics
  reset-IsCovered c id v =
      let m = c.rule_manager in
      elim (Option-cases (find id m.rules_by_id)) [
        | inl gone ↦ rw (gone, reset_rule_statistics, RuleManager.reset_rule_statistics) v
        | inr (r, there) ↦ record {
          manager = reset_rule-IsValid m id v.manager;
          bloom =
              rw (there, RuleManager.reset_rule_statistics)
                (inherit std_hash c.bloom_filter m.rules_by_id _
                  (assign-Inherited id (RuleManager.cleared r) r m.rules_by_id there refl refl)
                  v.bloom);
        }
      ]

  reset_all-IsCovered :
      (c : PacketClassifier) → IsCovered std_hash c → IsCovered std_hash (reset_statistics c)
  unfolding reset_statistics RuleManager.reset_all_rule_statistics
  reset_all-IsCovered c v =
      let rules = c.rule_manager.rules_by_id in
      record {
        manager = reset_all-IsValid c.rule_manager v.manager;
        bloom =
            inherit std_hash c.bloom_filter rules _
              (λ k r e.
                let (s, was, same) =
                  map-eq-some _ (find k rules) r
                    (sym (find-update_all k (λ r. RuleManager.cleared r) rules) ∙ e) in
                (s, was, ground arith, ground arith))
              v.bloom;
      }

  handle-IsCovered : (c : PacketClassifier) (q : Request) → IsCovered std_hash c → Handled c q
  unfolding handle
  handle-IsCovered c (add rule) v = (_, refl, add-IsCovered c rule v)
  handle-IsCovered c (delete id) v = (_, refl, delete-IsCovered c id v)
  handle-IsCovered c (modify id rule) v = (_, refl, modify-IsCovered c id rule v)
  handle-IsCovered c (packet h now) v = packet-Handled c h now v
  handle-IsCovered c (reset id) v = (_, refl, reset-IsCovered c id v)
  handle-IsCovered c reset_all v = (_, refl, reset_all-IsCovered c v)

  pub serve-IsCovered :
      (c : PacketClassifier) (qs : List Request)
      → IsCovered std_hash c
      → (c' : PacketClassifier) × (serve std std_hash c qs ≡ some c') × IsCovered std_hash c'
  unfolding serve
  serve-IsCovered c [] v = (c, refl, v)
  serve-IsCovered c (q ∷ qs) v =
      let (c', does, v') = handle-IsCovered c q v in
      let (last, serves, w) = serve-IsCovered c' qs v' in (last, rw (does, serve) serves, w)

  -- A classifier made with a valid Bloom filter, or with none, serves any requests: it reads no
  -- rule that is gone, keeps its manager valid, and has every enabled rule's filter in the Bloom
  -- filter.
  -- A classifier that starts with no filter, or with a valid Bloom filter, serves any requests without
  -- a dangling pointer. Its manager stays valid, and where there is a Bloom filter, this is valid and
  -- reports the text of the filter of each enabled rule.
  pub serve-init :
      (bloom : Option BloomFilter) (qs : List Request)
      → ((f : BloomFilter) → bloom ≡ some f → Membership.IsValid f)
      → (c : PacketClassifier) × (serve std std_hash (init bloom) qs ≡ some c)
        × IsCovered std_hash c
  unfolding find
  serve-init bloom qs valid = serve-IsCovered (init bloom) qs (record {
    manager = new-IsValid std;
    bloom = λ f e. (valid f e, λ k r there on. absurd (ground arith));
  })
