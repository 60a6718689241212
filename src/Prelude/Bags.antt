-- ===== src/Prelude/Bags.antt =====
-- Lists of numbers as bags: how often a number occurs, and one occurrence taken out.
use packet_classifier.Prelude.{
  ℕ, suc, ◌<◌, ◌≡◌, ◌+◌, ◌++◌, refl, List, [], ◌∷◌, ◌==◌, if◌then◌else◌, Bool-cases, inl, inr,
  arith, length, All,
}

abbrev pub count : ℕ → List ℕ → ℕ
count a [] = 0
count a (x ∷ xs) = if x == a then suc (count a xs) else count a xs

abbrev pub without : ℕ → List ℕ → List ℕ
without p [] = []
without p (q ∷ qs) = if q == p then qs else q ∷ without p qs

pub count_none : (a : ℕ) (P : ℕ → Type 0) (xs : List ℕ) → All P xs → (P a → ⊥) → count a xs ≡ 0
count_none a P [] h k = refl
count_none a P (x ∷ xs) h k = ground (arith, count_none a P xs h.1 k, h.0)

pub All-count : (P : ℕ → Type 0) (a : ℕ) (xs : List ℕ) → All P xs → 0 < count a xs → P a
All-count P a [] h k = absurd (omega arith)
All-count P a (x ∷ xs) h k = elim (Bool-cases (x == a)) [
  | inl here ↦ let e : x ≡ a = ground arith in rw (← e) h.0
  | inr later ↦ All-count P a xs h.1 (ground arith)
]

pub count-without :
    (p a : ℕ) (xs : List ℕ) → 0 < count p xs → count a xs ≡ count a (p ∷ without p xs)
count-without p a [] h = absurd (omega arith)
count-without p a (x ∷ xs) h = ground (arith, count-without p a xs)

pub length-without :
    (p : ℕ) (xs : List ℕ) → 0 < count p xs → length xs ≡ suc (length (without p xs))
length-without p [] h = absurd (omega arith)
length-without p (x ∷ xs) h = ground (arith, length-without p xs)

pub All-without :
    (P : ℕ → Type 0) (p : ℕ) (xs : List ℕ) → 0 < count p xs → All P xs → All P (p ∷ without p xs)
All-without P p [] h k = absurd (omega arith)
All-without P p (x ∷ xs) h k = elim (Bool-cases (x == p)) [
  | inl same ↦ let e : x ≡ p = ground arith in rw same (rw e at k)
  | inr later ↦ let rest = All-without P p xs (ground arith) k.1 in rw later (rest.0, (k.0, rest.1))
]

pub count-append : (a : ℕ) (xs ys : List ℕ) → count a (xs ++ ys) ≡ count a xs + count a ys
count-append a [] ys = omega arith
count-append a (x ∷ xs) ys = ground (arith, count-append a xs ys)
