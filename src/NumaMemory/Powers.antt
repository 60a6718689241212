-- ===== src/NumaMemory/Powers.antt =====
-- The steps that make an alignment a power of two and a multiple of the size of a pointer.
use native.Mathlib.Nat.{pow-suc, mod-eq_of_lt, pow-le-pow_right, one-le-pow}
use native.Mathlib.Decide.{dec_lt}
use packet_classifier.Prelude.{
  ℕ, zero, suc, ◌+◌, ◌*◌, ◌%◌, ◌^◌, max, ◌≤◌, ◌<◌, ◌≡◌, ◌≢◌, refl, ap, ◌∙◌, ◌⊎◌, inl, inr, false,
  ◌||◌, none, some, ltb, ◌==◌, if◌then◌else◌, arith, Bool-cases, Option-cases,
}
use packet_classifier.Prelude.Bits.{IsPower, single_bit, power_bit, double-IsPower}
use packet_classifier.NumaMemory.{
  pointer_size, align_up, has_two_bits, double_up, get_or_else, to_power, to_multiple,
}

IsPower-le : (x : ℕ) → IsPower x → x < 2 ^ 64 → x ≤ 2 ^ 63
IsPower-le x (k, e) h = elim (dec_lt k 64) [
  | yes low ↦ rw e (pow-le-pow_right {n = 2} (omega arith) {i = k} {j = 63} (omega arith))
  | no high ↦
      let big = pow-le-pow_right {n = 2} (omega arith) {i = 64} {j = k} (omega arith) in
      absurd (omega arith)
]

-- The loop ends at a power of two, at the first one that is not below the base where there is one.
pub double_up-IsPower :
    (fuel pot base p : ℕ)
    → IsPower pot
    → pot < 2 ^ 64
    → double_up fuel pot base ≡ some p
    → IsPower p × (base ≤ p) × (p < 2 ^ 64)
unfolding double_up
double_up-IsPower zero pot base p h k e = absurd cc
double_up-IsPower (suc fuel) pot base p h k e = elim (Bool-cases (ltb pot base)) [
  | inr reached ↦ let same : pot ≡ p = ground arith in rw (← same) (h, ground arith, k)
  | inl below ↦ elim (Bool-cases (pot * 2 % 2 ^ 64 == 0)) [
    | inl over ↦ absurd (ground arith)
    | inr more ↦
        let rest : double_up fuel (pot * 2 % 2 ^ 64) base ≡ some p = ground arith in
        let no_wrap : pot * 2 % 2 ^ 64 ≡ pot * 2 =
          let top = IsPower-le pot h k in mod-eq_of_lt (ground arith) in
        double_up-IsPower fuel (pot * 2) base p (double-IsPower pot h) (ground arith)
          (rw no_wrap at rest)
  ]
]

double_up_step :
    (fuel pot base : ℕ)
    → double_up (suc fuel) pot base ≡ (
        if ltb pot base
        then (if pot * 2 % 2 ^ 64 == 0 then none else double_up fuel (pot * 2 % 2 ^ 64) base)
        else some pot)
unfolding double_up
double_up_step fuel pot base = refl

-- It ends for a base of at most 2 ^ 63.
double_up-ne-none :
    (d j pot base : ℕ)
    → suc d + j ≡ 64
    → pot ≡ 2 ^ j
    → base ≤ 2 ^ 63
    → double_up (suc (suc d)) pot base ≢ none
double_up-ne-none zero j pot base h p k e =
    let last : j ≡ 63 = omega arith in
    let top : pot ≡ 2 ^ 63 = p ∙ ap (λ i. 2 ^ i) last in ground (arith, double_up_step 1 pot base)
double_up-ne-none (suc d) j pot base h p k e = elim (Bool-cases (ltb pot base)) [
  | inr reached ↦ absurd (ground (arith, double_up_step (suc (suc d)) pot base))
  | inl below ↦
      let twice : pot * 2 ≡ 2 ^ suc j = omega (arith, pow-suc 2 j) in
      let no_wrap : pot * 2 % 2 ^ 64 ≡ pot * 2 = mod-eq_of_lt (ground arith) in
      let positive = one-le-pow j 2 (omega arith) in
      let rest : double_up (suc (suc d)) (pot * 2) base ≡ none =
        ground (arith, double_up_step (suc (suc d)) pot base) in
      double_up-ne-none d (suc j) (pot * 2) base (omega arith) twice k rest
]

pub has_two_bits-IsPower :
    (x : ℕ) → x < 2 ^ 64 → has_two_bits x ≡ false → (x == 0) ≡ false → IsPower x
unfolding has_two_bits
has_two_bits-IsPower x h e k = single_bit x (ground arith) h (ground arith)

pub IsPower-one_bit : (x : ℕ) → x < 2 ^ 64 → IsPower x → has_two_bits x ≡ false
unfolding has_two_bits
IsPower-one_bit x h p = let e = power_bit x h p in ground arith

pub IsPower-positive : (x : ℕ) → IsPower x → 0 < x
IsPower-positive x (k, e) = let h = one-le-pow k 2 (omega arith) in omega arith

power_of_two_cases : (x : ℕ) → IsPower x → (x % 8 ≡ 0) ⊎ ((x ≡ 1) ⊎ ((x ≡ 2) ⊎ (x ≡ 4)))
power_of_two_cases x (zero, e) = inr (inl e)
power_of_two_cases x (suc zero, e) = inr (inr (inl e))
power_of_two_cases x (suc (suc zero), e) = inr (inr (inr e))
power_of_two_cases x (suc (suc (suc k)), e) =
    inl (omega (arith, pow-suc 2 k, pow-suc 2 (suc k), pow-suc 2 (suc (suc k))))

-- A doubled number, or what is taken where the doubling overflows, is a word.
double_up-lt :
    (base otherwise : ℕ) → otherwise < 2 ^ 64 → get_or_else (double_up 65 1 base) otherwise < 2 ^ 64
double_up-lt base otherwise h = elim (Option-cases (double_up 65 1 base)) [
  | inl over ↦ rw over h
  | inr (p, ends) ↦ rw ends ((double_up-IsPower 65 1 base p (0, refl) (omega arith) ends).2)
]

pub to_power-lt : (line base : ℕ) → line < 2 ^ 64 → base < 2 ^ 64 → to_power line base < 2 ^ 64
unfolding to_power
to_power-lt line base h k = elim (Bool-cases (has_two_bits base || base == 0)) [
  | inl odd ↦ rw (odd, to_power) (double_up-lt base line h)
  | inr power ↦ rw (power, to_power) k
]

pub to_multiple-lt :
    (line base a : ℕ) → line < 2 ^ 64 → a < 2 ^ 64 → to_multiple line base a < 2 ^ 64
unfolding to_multiple align_up
to_multiple-lt line base a h k = elim (Bool-cases (a % pointer_size == 0)) [
  | inl multiple ↦ rw (multiple, to_multiple) k
  | inr other ↦
      elim (Bool-cases (has_two_bits (align_up a pointer_size) || align_up a pointer_size == 0)) [
        | inl odd ↦ rw (other, odd, to_multiple) (double_up-lt (max base pointer_size) line h)
        | inr power ↦ rw (other, power, to_multiple) (omega arith)
      ]
]

-- With a base of at most 2 ^ 63 the first step gives a power of two that is not below it.
pub to_power-IsPower :
    (line base : ℕ)
    → base ≤ 2 ^ 63
    → IsPower (to_power line base) × (base ≤ to_power line base) × (to_power line base < 2 ^ 64)
unfolding to_power
to_power-IsPower line base h = elim (Bool-cases (has_two_bits base || base == 0)) [
  | inr power ↦
      rw (power, to_power)
        (
          has_two_bits-IsPower base (omega arith) (ground arith) (ground arith),
          omega arith,
          omega arith,
        )
  | inl odd ↦ elim (Option-cases (double_up 65 1 base)) [
    | inl over ↦ absurd (double_up-ne-none 63 0 1 base (omega arith) refl h over)
    | inr (p, ends) ↦
        rw (odd, ends, to_power) (double_up-IsPower 65 1 base p (0, refl) (omega arith) ends)
  ]
]

-- The second step keeps a power of two, or gives 8 for one below 8.
pub to_multiple-IsPower :
    (line base a : ℕ)
    → IsPower a
    → (to_multiple line base a % 8 ≡ 0)
      × IsPower (to_multiple line base a)
      × (a ≤ to_multiple line base a)
unfolding to_multiple has_two_bits align_up
to_multiple-IsPower line base a p = elim (power_of_two_cases a p) [
  | inl multiple ↦
      let kept : to_multiple line base a ≡ a = ground arith in rw kept (multiple, p, omega arith)
  | inr (inl one) ↦ rw one (refl, (3, refl), omega arith)
  | inr (inr (inl two)) ↦ rw two (refl, (3, refl), omega arith)
  | inr (inr (inr four)) ↦ rw four (refl, (3, refl), omega arith)
]
