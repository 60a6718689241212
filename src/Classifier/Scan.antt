-- ===== src/Classifier/Scan.antt =====
-- The loop of `classify` over the pointers, in src/packet_classifier.cpp.
use packet_classifier.Prelude.{
  ◌<◌, ◌≡◌, refl, ◌⊎◌, inl, inr, true, false, ◌&&◌, List, [], ◌∷◌, some, arith, All, Bool-cases,
}
use packet_classifier.Prelude.Int.{ℤ, ◌≤ℤ◌, ==ℤ_iff}
use packet_classifier.StdMap.{find}
use packet_classifier.StdMap.Laws.{count}
use packet_classifier.Rules.{PacketHeader, ClassificationRule, matches}
use packet_classifier.RuleManager.{RuleMap, higher, priority_of}
use packet_classifier.RuleManager.Invariant.{IsRanked}
use packet_classifier.Classifier.{no_rule, hit, scan}

-- The rule stands under the id `k`, is enabled, and its filter accepts the packet.
abbrev pub Applies : RuleMap → PacketHeader → ℤ → ClassificationRule → Type 0
Applies rules h k r = (find k rules ≡ some r) × (r.enabled ≡ true) × (matches r.filter h ≡ true)

All-count : (P : ℤ → Type 0) (q : ℤ) (ps : List ℤ) → All P ps → 0 < count q ps → P q
unfolding count
All-count P q [] h lt = absurd (omega arith)
All-count P q (p ∷ ps) h lt = ground (arith, All-count P q ps h.1, ==ℤ_iff p q)

-- All the pointers lead to rules.
abbrev pub Live : RuleMap → List ℤ → Type 0
Live rules ps = (p : ℤ) → 0 < count p ps → (r : ClassificationRule) × (find p rules ≡ some r)

module _ (rules : RuleMap) (h : PacketHeader) where
  abbrev pub Best : List ℤ → Type 0
  Best ps =
      (k : ℤ) × (r : ClassificationRule) × (scan rules h ps ≡ hit r)
      × Applies rules h k r
      × ((q : ℤ) (s : ClassificationRule)
          → 0 < count q ps
          → Applies rules h q s
          → s.priority ≤ℤ r.priority)

  abbrev pub Unmatched : List ℤ → Type 0
  Unmatched ps =
      (scan rules h ps ≡ no_rule)
      × ((q : ℤ) (s : ClassificationRule) → 0 < count q ps → ¬ Applies rules h q s)

  head-Best :
      (p : ℤ) (ps : List ℤ) (r : ClassificationRule)
      → find p rules ≡ some r
      → (r.enabled && matches r.filter h) ≡ true
      → IsRanked rules (p ∷ ps)
      → Best (p ∷ ps)
  unfolding scan count higher priority_of
  head-Best p ps r e test ranked = (
    p,
    r,
    ground arith,
    (e, ground arith, ground arith),
    λ q s lt a.
        ground (arith, All-count (λ b. higher rules b p ≡ false) q ps ranked.0, ==ℤ_iff p q),
  )

  pub scan-Best : (ps : List ℤ) → Live rules ps → IsRanked rules ps → Best ps ⊎ Unmatched ps
  unfolding scan count
  scan-Best [] live ranked = inr (refl, λ q s lt a. absurd (omega arith))
  scan-Best (p ∷ ps) live ranked =
      let (r, e) = live p (ground (arith, ==ℤ_iff p p)) in
      elim (Bool-cases (r.enabled && matches r.filter h)) [
        | inl test ↦ inl (head-Best p ps r e test ranked)
        | inr skip ↦ elim (scan-Best ps (λ q lt. live q (ground arith)) ranked.1) [
          | inl (k, s, found, applies, best) ↦
              inl (k, s, ground arith, applies, λ q t lt a. ground (arith, best q t, ==ℤ_iff p q))
          | inr (found, none_applies) ↦
              inr (ground arith, λ q t lt a. ground (arith, none_applies q t, ==ℤ_iff p q))
        ]
      ]
