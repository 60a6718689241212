-- ===== src/Text.antt =====
-- std::string as the list of its bytes, and std::to_string on integers.
pub mod Numbers
use Prim.Native.Char.{code}
use Prim.Native.String.{String}
use packet_classifier.Prelude.{
  ℕ, zero, suc, ◌+◌, ◌-◌, ◌/◌, ◌%◌, ◌≡◌, refl, arith, Bool, true, false, ◌&&◌, ◌==◌, List, [], ◌∷◌,
  ◌++◌, ltb, if◌then◌else◌, length, replicate,
}
use packet_classifier.Prelude.Int.{ℤ, pos, negsuc}

abbrev pub Str : Type 0
Str = List ℕ

-- A literal of the source, which is ASCII.
abbrev pub codes : String → Str
codes String.[] = []
codes (String.◌∷◌ c s) = code c ∷ codes s

abbrev pub is_empty : Str → Bool
is_empty [] = true
is_empty (c ∷ s) = false

-- Decimal digits, on fuel: each round divides by ten, so `suc n` rounds are enough.
unfoldable digits_fuel : ℕ → ℕ → Str
digits_fuel zero n = []
digits_fuel (suc f) n =
    let more = digits_fuel f (n / 10) ++ (b'0' + n % 10) ∷ [] in
    if ltb n 10 then (b'0' + n) ∷ [] else more

unfoldable pub to_string : ℕ → Str
unfolding digits_fuel
to_string n = digits_fuel (suc n) n

unfoldable pub to_string_ℤ : ℤ → Str
unfolding to_string
to_string_ℤ (pos n) = to_string n
to_string_ℤ (negsuc n) = b'-' ∷ to_string (suc n)

-- A field of a width, filled with zeros: `%m` of std::put_time, and std::setw with std::setfill('0').
unfoldable pub pad : ℕ → Str → Str
pad width s = replicate (width - length s) b'0' ++ s

-- `operator==` on strings.
abbrev pub same_text : Str → Str → Bool
same_text [] [] = true
same_text [] (d ∷ q) = false
same_text (c ∷ p) [] = false
same_text (c ∷ p) (d ∷ q) = c == d && same_text p q

pub same_text_self : (p : Str) → same_text p p ≡ true
same_text_self [] = refl
same_text_self (c ∷ p) = ground (arith, same_text_self p)

pub same_text-eq : (p q : Str) → same_text p q ≡ true → p ≡ q
same_text-eq [] [] e = refl
same_text-eq [] (d ∷ q) e = absurd cc
same_text-eq (c ∷ p) [] e = absurd cc
same_text-eq (c ∷ p) (d ∷ q) e =
    let heads : c ≡ d = ground arith in let tails = same_text-eq p q (ground arith) in cc
