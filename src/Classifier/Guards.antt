-- ===== src/Classifier/Guards.antt =====
-- What the Bloom filter of the classifier is to hold: the filter strings of the enabled rules.
use mathlib.Core.Option
use packet_classifier.Prelude.{
  ℕ, ◌≡◌, refl, ◌⊎◌, inl, inr, Bool, true, ◌&&◌, Option, some, arith, Bool-cases, map-eq-some,
  if◌then◌else◌,
}
use packet_classifier.Prelude.Int.{ℤ, ◌==ℤ◌, ==ℤ_iff}
use packet_classifier.StdMap.{find, assign}
use packet_classifier.StdMap.Laws.{find-assign}
use packet_classifier.Text.{Str}
use packet_classifier.Rules.{ClassificationRule, filter_to_string}
use packet_classifier.RuleManager.{RuleMap}
use packet_classifier.RuleManager.Invariant.{IsValid}
use packet_classifier.BloomFilter
use packet_classifier.BloomFilter.{BloomFilter}
use packet_classifier.BloomFilter.Membership
use packet_classifier.Classifier.{PacketClassifier}

-- A rule of an earlier state with the same filter, enabled or not alike.
abbrev pub Inherited : RuleMap → ℤ → ClassificationRule → Type 0
Inherited rules k r' =
    (r : ClassificationRule) × (find k rules ≡ some r)
    × (r.filter ≡ r'.filter)
    × (r.enabled ≡ r'.enabled)

pub assign-Inherited :
    (id : ℤ) (new old : ClassificationRule) (rules : RuleMap)
    → find id rules ≡ some old
    → new.filter ≡ old.filter
    → new.enabled ≡ old.enabled
    → (k : ℤ) (r : ClassificationRule) → find k (assign id new rules) ≡ some r
    → Inherited rules k r
assign-Inherited id new old rules there same same_on k r e =
    let law = find-assign id k new old rules there in
    elim (Bool-cases (id ==ℤ k)) [
      | inl here ↦ (old, ground (arith, ==ℤ_iff id k), ground arith, ground arith)
      | inr other ↦ (r, ground arith, refl, refl)
    ]

module _ (std_hash : Str → ℕ) where
  abbrev pub Covers : BloomFilter → RuleMap → Type 0
  Covers f rules =
      (k : ℤ) (r : ClassificationRule)
      → find k rules ≡ some r
      → r.enabled ≡ true
      → BloomFilter.possibly_contains std_hash f (filter_to_string r.filter) ≡ true

  abbrev pub Guards : Option BloomFilter → RuleMap → Type 0
  Guards o rules = (f : BloomFilter) → o ≡ some f → Membership.IsValid f × Covers f rules

  pub record IsCovered (c : PacketClassifier) : Type 0 where
    pub manager : IsValid c.rule_manager
    pub bloom :
        (f : BloomFilter)
        → c.bloom_filter ≡ some f
        → Membership.IsValid f × Covers f c.rule_manager.rules_by_id

  pub inherit :
      (o : Option BloomFilter) (rules rules' : RuleMap)
      → ((k : ℤ) (r : ClassificationRule) → find k rules' ≡ some r → Inherited rules k r)
      → Guards o rules
      → Guards o rules'
  inherit o rules rules' old g f e = (
    (g f e).0,
    λ k r there on.
        let (s, was, same, same_on) = old k r there in
        rw (← same) ((g f e).1 k s was (ground arith)),
  )

  pub learn :
      (o : Option BloomFilter) (rule : ClassificationRule) (rules rules' : RuleMap)
      → ((k : ℤ) (r : ClassificationRule)
          → find k rules' ≡ some r
          → (find k rules ≡ some r) ⊎ (r.filter ≡ rule.filter))
      → Guards o rules
      → Guards
          (Option.map (λ f. BloomFilter.insert std_hash f (filter_to_string rule.filter)) o)
          rules'
  learn o rule rules rules' old g f e =
      let (h, was, same) = map-eq-some _ o f e in
      (
        rw same (Membership.insert-IsValid std_hash h _ (g h was).0),
        λ k r there on. elim (old k r there) [
          | inl before ↦
              rw same
                (Membership.possibly_contains-keeps std_hash h _ _ ((g h was).1 k r before on))
          | inr new ↦ rw (same, new) (Membership.possibly_contains-insert std_hash h _ (g h was).0)
        ],
      )

  -- The filter after an update for a rule, made where the manager has accepted it.
  abbrev pub learned : Bool → ClassificationRule → Option BloomFilter → Option BloomFilter
  learned accepted rule o =
      if accepted && rule.enabled
      then Option.map (λ f. BloomFilter.insert std_hash f (filter_to_string rule.filter)) o
      else o

  -- A filter that has learnt an accepted rule guards rules that are old or have its filter.
  pub learned-Guards :
      (accepted : Bool) (o : Option BloomFilter) (rule : ClassificationRule)
      (rules rules' : RuleMap)
      → ((k : ℤ) (r : ClassificationRule)
          → find k rules' ≡ some r
          → (find k rules ≡ some r)
            ⊎ ((accepted ≡ true) × (r.filter ≡ rule.filter) × (r.enabled ≡ rule.enabled)))
      → Guards o rules
      → Guards (learned accepted rule o) rules'
  learned-Guards accepted o rule rules rules' old g = elim (Bool-cases (accepted && rule.enabled)) [
    | inl taken ↦ rw taken (learn o rule rules rules' (λ k r e. ground (arith, old k r e)) g)
    | inr skipped ↦ rw skipped (λ f e. (
      (g f e).0,
      λ k r there on. elim (old k r there) [
        | inl before ↦ (g f e).1 k r before on
        | inr (yes_taken, _, same_on) ↦ absurd (ground arith)
      ],
    ))
  ]
