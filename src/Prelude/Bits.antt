-- ===== src/Prelude/Bits.antt =====
-- The test `x & (x - 1)` of a power of two.
use Prim.Native.Nat.{min, bit_and, digits, bit_and-bitwise}
use native.Mathlib.Decide.{dec_lt}
use native.Mathlib.Nat.{pow-suc, one-le-pow}
use packet_classifier.Prelude.{
  ℕ, zero, suc, ◌+◌, ◌-◌, ◌*◌, ◌/◌, ◌%◌, ◌^◌, ◌≤◌, ◌<◌, ◌≡◌, refl, sym, ◌∙◌, arith,
}

abbrev pub IsPower : ℕ → Type 0
IsPower x = (k : ℕ) × (x ≡ 2 ^ k)

-- The conjunction, digit by digit, for at most `n` digits.
abbrev both : ℕ → ℕ → ℕ → ℕ
both n a b = digits (λ b. zero) min n a b

both_self : (n a : ℕ) → a ≤ n → both n a a ≡ a
both_self zero zero h = refl
both_self zero (suc a) h = absurd (omega arith)
both_self (suc n) zero h = refl
both_self (suc n) (suc a) h = omega (arith, both_self n (suc a / 2) (omega arith))

pub double-IsPower : (x : ℕ) → IsPower x → IsPower (x * 2)
double-IsPower x (k, e) = (suc k, omega (arith, pow-suc 2 k))

both_below : (n a : ℕ) → suc a ≤ n → both n (suc a) a ≡ 0 → IsPower (suc a)
both_below zero a h e = absurd (omega arith)
both_below (suc n) zero h e = (0, refl)
both_below (suc n) (suc a) h e = elim (dec_lt (suc a % 2) 1) [
  | yes odd ↦
      let half : suc (suc a) / 2 ≡ suc a / 2 = omega arith in
      let same : both n (suc (suc a) / 2) (suc a / 2) ≡ suc a / 2 =
        rw half (both_self n (suc a / 2) (omega arith)) in
      absurd (omega arith)
  | no even ↦
      let half : suc (suc a) / 2 ≡ suc (suc a / 2) = omega arith in
      let rest : both n (suc (suc a) / 2) (suc a / 2) ≡ 0 = omega arith in
      let power : IsPower (suc (suc a / 2)) =
        both_below n (suc a / 2) (omega arith) (rw half at rest) in
      let twice : suc (suc a) ≡ suc (suc a / 2) * 2 = omega arith in
      rw twice (double-IsPower (suc (suc a / 2)) power)
]

both_double : (n q : ℕ) → both n (suc q) q ≡ 0 → both (suc n) (suc (suc (q * 2))) (suc (q * 2)) ≡ 0
both_double n q e =
    let high : suc (suc (q * 2)) / 2 ≡ suc q = omega arith in
    let low : suc (q * 2) / 2 ≡ q = omega arith in
    let half : both n (suc (suc (q * 2)) / 2) (suc (q * 2) / 2) ≡ 0 = rw (high, low) e in
    omega arith

both_none : (n b : ℕ) → both n 0 b ≡ 0
both_none zero b = refl
both_none (suc n) b = refl

both_one : (n : ℕ) → both (suc n) 1 0 ≡ 0
both_one n = omega (arith, both_none n 0)

both_power : (k n q : ℕ) → suc q ≡ 2 ^ k → suc q ≤ n → both n (suc q) q ≡ 0
both_power k zero q e h = absurd (omega arith)
both_power zero (suc n) q e h = let q_zero : q ≡ 0 = omega arith in rw q_zero (both_one n)
both_power (suc k) (suc n) q e h =
    let positive = one-le-pow k 2 (omega arith) in
    let twice = pow-suc 2 k in
    let q_odd : q ≡ suc ((2 ^ k - 1) * 2) = omega arith in
    rw q_odd (both_double n (2 ^ k - 1) (both_power k n (2 ^ k - 1) (omega arith) (omega arith)))

-- The test as the source writes it, on a word that is not zero.
pub single_bit :
    (x : ℕ) → 0 < x → x < 2 ^ 64 → bit_and x ((x + 2 ^ 64 - 1) % 2 ^ 64) ≡ 0 → IsPower x
single_bit zero h k e = absurd (omega arith)
single_bit (suc a) h k e =
    let less : (suc a + 2 ^ 64 - 1) % 2 ^ 64 ≡ a = omega arith in
    both_below (suc a) a (omega arith) (sym (bit_and-bitwise (suc a) a) ∙ (rw less at e))

pub power_bit : (x : ℕ) → x < 2 ^ 64 → IsPower x → bit_and x ((x + 2 ^ 64 - 1) % 2 ^ 64) ≡ 0
power_bit zero h p = refl
power_bit (suc a) h (k, e) =
    let less : (suc a + 2 ^ 64 - 1) % 2 ^ 64 ≡ a = omega arith in
    rw less (bit_and-bitwise (suc a) a ∙ both_power k (suc a) a e (omega arith))
