-- ===== src/Logger/Roundtrip.antt =====
-- The lines that `formatMessage` of src/utils/logging.cpp writes for the macros, read back.
use packet_classifier.Prelude.{
  list_laws, ℕ, suc, ◌+◌, ◌-◌, ◌≡◌, ◌≢◌, refl, arith, true, [], ◌∷◌, ◌++◌, Option, some, ◌>>=◌,
}
use packet_classifier.Prelude.Int.{pos, ltb_ℤ}
use packet_classifier.Text.{Str, to_string, to_string_ℤ, pad}
use packet_classifier.Text.Numbers.{
  split_at, Lacks, split_at_lem, number-pad, pad-IsDigit, number-to_string, to_string-IsDigit,
  IsDigit-Lacks, IsDigit,
}
use packet_classifier.Logger.{
  LogLevel, no_level, error, warning, info, debug, trace, level_to_string, filename, place,
  format_message,
}
use packet_classifier.Logger.Timestamp.{
  Tm, put_time, get_current_timestamp, to_time_t, milliseconds,
}
use packet_classifier.Logger.Reading.{read_date, read_level, read_place, read_line}

-- The reader goes on after a field.
next_field {ℓ} :
    {A : Type ℓ} {r : Option A} (c : ℕ) (p q : Str) (k : Str × Str → Option A)
    → Lacks c p
    → k (p, q) ≡ r
    → (split_at c (p ++ c ∷ q) >>= k) ≡ r
next_field c p q k h e = rw (split_at_lem c p q h) e

read_date-put_time : (t : Tm) → read_date (put_time t) ≡ some t
unfolding read_date put_time
read_date-put_time t =
    let field : (c n : ℕ) → (IsDigit c → ⊥) → Lacks c (pad 2 (to_string n)) =
      λ c n h. IsDigit-Lacks c (pad 2 (to_string n)) h (pad-IsDigit 2 n) in
    let month : suc t.tm_mon - 1 ≡ t.tm_mon = omega arith in
    let year : 1900 + t.tm_year - 1900 ≡ t.tm_year = omega arith in
    next_field b'-' (to_string (1900 + t.tm_year)) _ _
      (IsDigit-Lacks b'-' _ (λ d. omega arith) (to_string-IsDigit (1900 + t.tm_year)))
      (next_field b'-' (pad 2 (to_string (suc t.tm_mon))) _ _ (field b'-' _ (λ d. omega arith)) (
        next_field b' ' (pad 2 (to_string t.tm_mday)) _ _ (field b' ' _ (λ d. omega arith)) (
          next_field b':' (pad 2 (to_string t.tm_hour)) _ _ (field b':' _ (λ d. omega arith)) (
            next_field b':' (pad 2 (to_string t.tm_min)) _ _ (field b':' _ (λ d. omega arith)) (
              rw
                (
                  number-to_string (1900 + t.tm_year),
                  number-pad 2 (suc t.tm_mon),
                  number-pad 2 t.tm_mday,
                  number-pad 2 t.tm_hour,
                  number-pad 2 t.tm_min,
                  number-pad 2 t.tm_sec,
                  year,
                  month,
                )
                refl)))))

Lacks-field : (c d : ℕ) (p q : Str) → Lacks c p → d ≢ c → Lacks c q → Lacks c (p ++ d ∷ q)
Lacks-field c d [] q h k l = (k, l)
Lacks-field c d (a ∷ p) q h k l = (h.0, Lacks-field c d p q h.1 k l)

-- A byte that is no digit and no separator.
abbrev IsForeign : ℕ → Type 0
IsForeign c = (IsDigit c → ⊥) × (b'-' ≢ c) × (b' ' ≢ c) × (b':' ≢ c)

put_time-Lacks : (c : ℕ) (t : Tm) → IsForeign c → Lacks c (put_time t)
unfolding put_time
put_time-Lacks c t (digit, dash, blank, colon) =
    let field : (n : ℕ) → Lacks c (pad 2 (to_string n)) =
      λ n. IsDigit-Lacks c (pad 2 (to_string n)) digit (pad-IsDigit 2 n) in
    Lacks-field c b'-' _ _ (IsDigit-Lacks c _ digit (to_string-IsDigit (1900 + t.tm_year))) dash (
      Lacks-field c b'-' _ _ (field (suc t.tm_mon)) dash (
        Lacks-field c b' ' _ _ (field t.tm_mday) blank (
          Lacks-field c b':' _ _ (field t.tm_hour) colon
            (Lacks-field c b':' _ _ (field t.tm_min) colon (field t.tm_sec)))))

read_level-level_to_string : (l : LogLevel) → read_level (level_to_string l) ≡ some l
read_level-level_to_string no_level = refl
read_level-level_to_string error = refl
read_level-level_to_string warning = refl
read_level-level_to_string info = refl
read_level-level_to_string debug = refl
read_level-level_to_string trace = refl

level_to_string-Lacks : (l : LogLevel) → Lacks b']' (level_to_string l)
level_to_string-Lacks _ = ground arith

place-message :
    (file : Str) (n : ℕ) (function message : Str)
    → place (some file) (pos (suc n)) (some function) ++ message
      ≡ b'['
        ∷ (filename file
            ++ b':'
              ∷ (to_string (suc n) ++ b' ' ∷ b'(' ∷ (function ++ b')' ∷ b']' ∷ b' ' ∷ message)))
unfolding place to_string_ℤ
place-message file n function message =
    let positive : ltb_ℤ (pos 0) (pos (suc n)) ≡ true = ground arith in
    rw (place, positive) (simp list_laws refl)

get_current_timestamp-Lacks :
    (localtime : ℕ → Tm) (now : ℕ) → Lacks b']' (get_current_timestamp localtime now)
unfolding get_current_timestamp
get_current_timestamp-Lacks localtime now =
    Lacks-field b']' b'.' _ _
      (put_time-Lacks b']' _ (λ d. omega arith, omega arith, omega arith, omega arith))
      (omega arith) (IsDigit-Lacks b']' _ (λ d. omega arith) (pad-IsDigit 3 (milliseconds now)))

-- The place and the message, behind the bracket that opens the place.
read_place-Entry :
    (time : Tm) (millisecond : ℕ) (level : LogLevel) (message name : Str) (n : ℕ) (function : Str)
    → Lacks b':' name
    → Lacks b')' function
    → read_place time (pad 3 (to_string millisecond)) level (
        name
        ++ b':' ∷ (to_string (suc n) ++ b' ' ∷ b'(' ∷ (function ++ b')' ∷ b']' ∷ b' ' ∷ message)))
      ≡ some (record {
        time = time;
        millisecond = millisecond;
        level = level;
        file = name;
        line = suc n;
        function = function;
        message = message;
      })
unfolding read_place
read_place-Entry time millisecond level message name n function named ends =
    next_field b':' name _ _ named (
      next_field b' ' (to_string (suc n)) _ _
        (IsDigit-Lacks b' ' _ (λ d. omega arith) (to_string-IsDigit (suc n)))
        (next_field b'(' [] _ _ tt (
          next_field b')' function _ _ ends (
            next_field b' ' (b']' ∷ []) _ _ (ground arith)
              (rw (number-pad 3 millisecond, number-to_string (suc n)) refl)))))

-- A line that a macro writes can be read: the time, the milliseconds, the level, the name of the
-- file, the line, the function and the message are those of the call, whatever the message. The name
-- of the file has no colon, and the name of the function no closing parenthesis.
pub read_line-format_message :
    (localtime : ℕ → Tm) (now : ℕ) (level : LogLevel) (message file : Str) (n : ℕ) (function : Str)
    → Lacks b':' (filename file)
    → Lacks b')' function
    → read_line (
        format_message
          (get_current_timestamp localtime now)
          level
          message
          (some file)
          (pos (suc n))
          (some function))
      ≡ some (record {
        time = localtime (to_time_t now);
        millisecond = milliseconds now;
        level = level;
        file = filename file;
        line = suc n;
        function = function;
        message = message;
      })
unfolding read_line format_message get_current_timestamp
read_line-format_message localtime now level message file n function named ends =
    let foreign : IsForeign b'.' = (λ d. omega arith, omega arith, omega arith, omega arith) in
    rw (place-message file n function message) (
      next_field b'[' [] _ _ tt (
        next_field b']' (get_current_timestamp localtime now) _ _
          (get_current_timestamp-Lacks localtime now)
          (next_field b'.' (put_time (localtime (to_time_t now))) _ _
            (put_time-Lacks b'.' _ foreign)
            (rw (read_date-put_time (localtime (to_time_t now))) (
              next_field b'[' (b' ' ∷ []) _ _ (ground arith) (
                next_field b']' (level_to_string level) _ _ (level_to_string-Lacks level) (
                  rw (read_level-level_to_string level) (
                    next_field b'[' (b' ' ∷ []) _ _ (ground arith) (
                      read_place-Entry _ _ level message (filename file) n function named
                        ends)))))))))
