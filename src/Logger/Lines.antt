-- ===== src/Logger/Lines.antt =====
-- The lines that `log` of src/utils/logging.cpp writes, and the file name in them.
use mathlib.Core.List.{append_assoc, append-nil}
use packet_classifier.Prelude.{
  ℕ, ◌≡◌, refl, sym, ap, ◌⊎◌, inl, inr, true, false, ◌||◌, List, [], ◌∷◌, ◌++◌, Option, none, some,
  arith, ltb, ◌==◌, if◌then◌else◌, All, Option-cases, Bool-cases,
}
use packet_classifier.Prelude.Int.{ℤ}
use packet_classifier.Text.{Str}
use packet_classifier.Logger.{
  LogLevel, Logger, Output, value, no_level, should_log, is_slash, after_last_slash, filename,
  format_message, console_line, file_lines, log, log_msg,
}

-- What a call adds where it writes.
abbrev pub lines : Logger → LogLevel → Str → List Output
lines g level text =
    (if g.console_output_enabled then console_line level text ∷ [] else [])
    ++ file_lines g.output_file text

-- A call writes one line to each sink that is on, the same line, and only where `SHOULD_LOG` holds;
-- so the macro, which tests this first, writes what the method writes.
pub log_lem :
    (g : Logger) (timestamp : Str) (level : LogLevel) (message : Str) (file : Option Str) (line : ℤ)
    (function : Option Str)
    → ((log g timestamp level message file line function).outputs
        ≡ g.outputs
          ++ (if should_log g level
              then lines g level (format_message timestamp level message file line function)
              else []))
      × (log_msg g timestamp level message file line function
          ≡ log g timestamp level message file line function)
unfolding log log_msg
log_lem g timestamp level message file line function = elim (Bool-cases (should_log g level)) [
  | inl on ↦
      let kept : (ltb (value g.current_level) (value level) || value level == value no_level)
          ≡ false =
        ground arith in
      (rw (log, kept, on) (append_assoc g.outputs _ _), rw (log_msg, on) refl)
  | inr off ↦
      let dropped : (ltb (value g.current_level) (value level) || value level == value no_level)
          ≡ true =
        ground arith in
      (rw (log, dropped, off) (sym (append-nil g.outputs)), rw (log_msg, off, log, dropped) refl)
]

abbrev pub NoSlashes : Str → Type 0
NoSlashes = All (λ c. is_slash c ≡ false)

after_last_slash-none : (s : Str) → after_last_slash s ≡ none → NoSlashes s
unfolding after_last_slash
after_last_slash-none [] e = tt
after_last_slash-none (c ∷ s) e = elim (Option-cases (after_last_slash s)) [
  | inl gone ↦ (ground arith, after_last_slash-none s gone)
  | inr (r, there) ↦ absurd (ground arith)
]

abbrev pub EndsWith : Str → Str → Type 0
EndsWith s name = (folder : Str) × (c : ℕ) × (is_slash c ≡ true) × (s ≡ folder ++ c ∷ name)

after_last_slash-some :
    (s name : Str) → after_last_slash s ≡ some name → NoSlashes name × EndsWith s name
unfolding after_last_slash
after_last_slash-some [] name e = absurd cc
after_last_slash-some (c ∷ s) name e = elim (Option-cases (after_last_slash s)) [
  | inl gone ↦ elim (Bool-cases (is_slash c)) [
    | inl slash ↦
        let same : s ≡ name = ground arith in
        (rw (← same) (after_last_slash-none s gone), ([], c, slash, ap (λ x. c ∷ x) same))
    | inr other ↦ absurd (ground arith)
  ]
  | inr (r, there) ↦
      let same : r ≡ name = ground arith in
      let (clean, (folder, d, slash, eq)) = after_last_slash-some s r there in
      (rw (← same) clean, (c ∷ folder, d, slash, rw (← same) (ap (λ x. c ∷ x) eq)))
]

-- The file name of a path has no slash, and the path is the name, or ends in a slash and the name.
pub filename_lem : (s : Str) → NoSlashes (filename s) × ((s ≡ filename s) ⊎ EndsWith s (filename s))
unfolding filename
filename_lem s = elim (Option-cases (after_last_slash s)) [
  | inl gone ↦ (rw (filename, gone) (after_last_slash-none s gone), inl (rw (filename, gone) refl))
  | inr (name, there) ↦
      let (clean, ends) = after_last_slash-some s name there in
      (rw (filename, there) clean, inr (rw (filename, there) ends))
]
