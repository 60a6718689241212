-- ===== src/Text/Numbers.antt =====
-- Decimal numbers that are printed and read back, and texts that are split at a byte.
use packet_classifier.Prelude.{
  ℕ, zero, suc, ◌+◌, ◌-◌, ◌*◌, ◌/◌, ◌%◌, ◌<◌, ◌≤◌, ◌≡◌, ◌≢◌, ◌∙◌, refl, arith, [], ◌∷◌, ◌++◌,
  Option, none, some, ltb, ◌==◌, if◌then◌else◌, length, replicate, All, All-map, Bool-cases, inl,
  inr,
}
use packet_classifier.Text.{Str, digits_fuel, to_string, pad}

-- What stands before the first occurrence of a byte, and what follows it.
unfoldable pub split_at : ℕ → Str → Option (Str × Str)
split_at c [] = none
split_at c (d ∷ s) =
    let rest = split_at c s in
    if d == c then some ([], s) else elim rest [ none ↦ none | some (p, q) ↦ some (d ∷ p, q) ]

-- A text without a byte.
abbrev pub Lacks : ℕ → Str → Type 0
Lacks c = All (λ d. d ≢ c)

pub split_at_lem : (c : ℕ) (p q : Str) → Lacks c p → split_at c (p ++ c ∷ q) ≡ some (p, q)
unfolding split_at
split_at_lem c [] q h = ground arith
split_at_lem c (d ∷ p) q h = let rest = split_at_lem c p q h.1 in let other = h.0 in ground arith

unfoldable pub number_from : ℕ → Str → ℕ
number_from n [] = n
number_from n (c ∷ s) = number_from (n * 10 + (c - b'0')) s

-- The number that digits denote.
unfoldable pub number : Str → ℕ
unfolding number_from
number s = number_from 0 s

number_from-append :
    (n d : ℕ) (s : Str) → number_from n (s ++ (b'0' + d) ∷ []) ≡ number_from n s * 10 + d
unfolding number_from
number_from-append n d [] = omega arith
number_from-append n d (c ∷ s) = number_from-append (n * 10 + (c - b'0')) d s

number-digits_fuel : (f n : ℕ) → n < f → number_from 0 (digits_fuel f n) ≡ n
unfolding number_from digits_fuel
number-digits_fuel zero n h = absurd (omega arith)
number-digits_fuel (suc f) n h = elim (Bool-cases (ltb n 10)) [
  | inl small ↦ ground arith
  | inr large ↦
      let ih = number-digits_fuel f (n / 10) (ground arith) in
      rw (digits_fuel, large, number_from-append 0 (n % 10) (digits_fuel f (n / 10)), ih)
        (omega arith)
]

abbrev pub IsDigit : ℕ → Type 0
IsDigit c = (b'0' ≤ c) × (c < b'0' + 10)

IsDigit-append : (s : Str) (d : ℕ) → All IsDigit s → d < 10 → All IsDigit (s ++ (b'0' + d) ∷ [])
IsDigit-append [] d h small = ((omega arith, omega arith), tt)
IsDigit-append (c ∷ s) d h small = (h.0, IsDigit-append s d h.1 small)

digits_fuel-IsDigit : (f n : ℕ) → All IsDigit (digits_fuel f n)
unfolding digits_fuel
digits_fuel-IsDigit zero n = tt
digits_fuel-IsDigit (suc f) n = elim (Bool-cases (ltb n 10)) [
  | inl small ↦ rw (digits_fuel, small) ((omega arith, ground arith), tt)
  | inr large ↦
      rw (digits_fuel, large)
        (IsDigit-append (digits_fuel f (n / 10)) (n % 10) (digits_fuel-IsDigit f (n / 10))
          (omega arith))
]

number_from-zeros : (k : ℕ) (s : Str) → number_from 0 (replicate k b'0' ++ s) ≡ number_from 0 s
unfolding number_from
number_from-zeros zero s = refl
number_from-zeros (suc k) s = number_from-zeros k s

zeros-IsDigit : (k : ℕ) (s : Str) → All IsDigit s → All IsDigit (replicate k b'0' ++ s)
zeros-IsDigit zero s h = h
zeros-IsDigit (suc k) s h = ((omega arith, omega arith), zeros-IsDigit k s h)

pub number-pad : (width n : ℕ) → number (pad width (to_string n)) ≡ n
unfolding number to_string pad
number-pad width n =
    number_from-zeros (width - length (to_string n)) (to_string n)
    ∙ number-digits_fuel (suc n) n (omega arith)

pub pad-IsDigit : (width n : ℕ) → All IsDigit (pad width (to_string n))
unfolding to_string pad
pad-IsDigit width n =
    zeros-IsDigit (width - length (to_string n)) (to_string n) (digits_fuel-IsDigit (suc n) n)

pub number-to_string : (n : ℕ) → number (to_string n) ≡ n
unfolding number to_string
number-to_string n = number-digits_fuel (suc n) n (omega arith)

pub to_string-IsDigit : (n : ℕ) → All IsDigit (to_string n)
unfolding to_string
to_string-IsDigit n = digits_fuel-IsDigit (suc n) n

-- What is no digit does not occur in a number.
pub IsDigit-Lacks : (c : ℕ) (s : Str) → (IsDigit c → ⊥) → All IsDigit s → Lacks c s
IsDigit-Lacks c s other h = All-map (λ d k e. other (rw e at k)) s h
