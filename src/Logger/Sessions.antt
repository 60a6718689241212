-- ===== src/Logger/Sessions.antt =====
-- A series of calls of the logger of src/utils/logging.cpp, and what its file holds at the end.
use mathlib.Core.List.{append_assoc, append-nil}
use packet_classifier.Prelude.{
  ◌≡◌, ◌∙◌, refl, sym, ap, Bool, false, List, [], ◌∷◌, ◌++◌, Option, some, arith, leb,
  if◌then◌else◌, Bool-cases, inl, inr,
}
use packet_classifier.Prelude.Int.{ℤ}
use packet_classifier.Text.{Str, same_text, same_text_self}
use packet_classifier.Logger.{
  LogLevel, no_level, Logger, Output, to_cout, to_cerr, to_file, opened, value, should_log,
  format_message, is_error, log, log_msg, set_log_level, set_console_output,
}
use packet_classifier.Logger.Lines.{lines, log_lem}
use packet_classifier.Logger.Methods.{
  error, warning, info, debug, trace, log_error, log_warning, log_info, log_debug, log_trace,
}

pub data Call : Type 0 where
  set_level : LogLevel → Call
  set_console : Bool → Call
  logs : LogLevel → Str → Str → Option Str → ℤ → Option Str → Call
  macro_logs : LogLevel → Str → Str → Str → ℤ → Str → Call

-- The method of a level; there is none for NONE, which only `log` takes.
abbrev pub method : LogLevel → Logger → Str → Str → Option Str → ℤ → Option Str → Logger
method no_level g = λ timestamp. log g timestamp no_level
method LogLevel.error g = error g
method LogLevel.warning g = warning g
method LogLevel.info g = info g
method LogLevel.debug g = debug g
method LogLevel.trace g = trace g

abbrev pub macro : LogLevel → Logger → Str → Str → Str → ℤ → Str → Logger
macro no_level g = λ timestamp message file line function.
    log_msg g timestamp no_level message (some file) line (some function)
macro LogLevel.error g = log_error g
macro LogLevel.warning g = log_warning g
macro LogLevel.info g = log_info g
macro LogLevel.debug g = log_debug g
macro LogLevel.trace g = log_trace g

unfoldable pub run : Logger → List Call → Logger
run g [] = g
run g (set_level l ∷ calls) = run (set_log_level g l) calls
run g (set_console b ∷ calls) = run (set_console_output g b) calls
run g (logs l timestamp message file line function ∷ calls) =
    run (method l g timestamp message file line function) calls
run g (macro_logs l timestamp message file line function ∷ calls) =
    run (macro l g timestamp message file line function) calls

-- The lines of a file.
unfoldable pub written : Str → List Output → List Str
written path [] = []
written path (to_cout t ∷ os) = written path os
written path (to_cerr t ∷ os) = written path os
written path (to_file p t ∷ os) = if same_text p path then t ∷ written path os else written path os
written path (opened p append ∷ os) = written path os

-- `level <= current_level_`, for what is a message.
abbrev pub is_heard : LogLevel → LogLevel → Bool
is_heard current no_level = false
is_heard current l = leb (value l) (value current)

-- The lines of the calls that are heard at the level that was set last.
unfoldable pub heard : LogLevel → List Call → List Str
heard current [] = []
heard current (set_level l ∷ calls) = heard l calls
heard current (set_console b ∷ calls) = heard current calls
heard current (logs l timestamp message file line function ∷ calls) =
    if is_heard current l
    then format_message timestamp l message file line function ∷ heard current calls
    else heard current calls
heard current (macro_logs l timestamp message file line function ∷ calls) =
    if is_heard current l
    then format_message timestamp l message (some file) line (some function) ∷ heard current calls
    else heard current calls

written-append :
    (path : Str) (os qs : List Output)
    → written path (os ++ qs) ≡ written path os ++ written path qs
unfolding written
written-append path [] qs = refl
written-append path (to_cout t ∷ os) qs = written-append path os qs
written-append path (to_cerr t ∷ os) qs = written-append path os qs
written-append path (to_file p t ∷ os) qs = ground (arith, written-append path os qs)
written-append path (opened p a ∷ os) qs = written-append path os qs

written-lines :
    (g : Logger) (path : Str) (l : LogLevel) (t : Str)
    → g.output_file ≡ some path
    → written path (lines g l t) ≡ t ∷ []
unfolding written
written-lines g path l t h =
    let same = same_text_self path in
    elim (Bool-cases g.console_output_enabled) [
      | inl on ↦ elim (Bool-cases (is_error l)) [
        | inl cerr ↦ rw (on, cerr, h) (rw same refl)
        | inr cout ↦ rw (on, cout, h) (rw same refl)
      ]
      | inr off ↦ rw (off, h) (rw same refl)
    ]

method-log :
    (l : LogLevel) (g : Logger) (timestamp message : Str) (file : Option Str) (line : ℤ)
    (function : Option Str)
    → method l g timestamp message file line function ≡ log g timestamp l message file line function
unfolding error warning info debug trace
method-log no_level g timestamp message file line function = refl
method-log LogLevel.error g timestamp message file line function = refl
method-log LogLevel.warning g timestamp message file line function = refl
method-log LogLevel.info g timestamp message file line function = refl
method-log LogLevel.debug g timestamp message file line function = refl
method-log LogLevel.trace g timestamp message file line function = refl

macro-log :
    (l : LogLevel) (g : Logger) (timestamp message file : Str) (line : ℤ) (function : Str)
    → macro l g timestamp message file line function
      ≡ log g timestamp l message (some file) line (some function)
unfolding log_error log_warning log_info log_debug log_trace
macro-log no_level g timestamp message file line function =
    (log_lem g timestamp no_level message (some file) line (some function)).1
macro-log LogLevel.error g timestamp message file line function =
    (log_lem g timestamp LogLevel.error message (some file) line (some function)).1
macro-log LogLevel.warning g timestamp message file line function =
    (log_lem g timestamp LogLevel.warning message (some file) line (some function)).1
macro-log LogLevel.info g timestamp message file line function =
    (log_lem g timestamp LogLevel.info message (some file) line (some function)).1
macro-log LogLevel.debug g timestamp message file line function =
    (log_lem g timestamp LogLevel.debug message (some file) line (some function)).1
macro-log LogLevel.trace g timestamp message file line function =
    (log_lem g timestamp LogLevel.trace message (some file) line (some function)).1

log_state :
    (g : Logger) (timestamp : Str) (l : LogLevel) (message : Str) (file : Option Str) (line : ℤ)
    (function : Option Str)
    → ((log g timestamp l message file line function).output_file ≡ g.output_file)
      × ((log g timestamp l message file line function).current_level ≡ g.current_level)
unfolding log
log_state g timestamp l message file line function = ground arith

should_log-is_heard : (g : Logger) (l : LogLevel) → should_log g l ≡ is_heard g.current_level l
should_log-is_heard g no_level = ground arith
should_log-is_heard g _ = ground arith

-- One call adds its line where the call is heard.
written-log :
    (g : Logger) (path timestamp : Str) (l : LogLevel) (message : Str) (file : Option Str)
    (line : ℤ) (function : Option Str)
    → g.output_file ≡ some path
    → written path (log g timestamp l message file line function).outputs
      ≡ written path g.outputs
        ++ (if is_heard g.current_level l
            then format_message timestamp l message file line function ∷ []
            else [])
unfolding written
written-log g path timestamp l message file line function h =
    let text : Str = format_message timestamp l message file line function in
    let adds = (log_lem g timestamp l message file line function).0 in
    let same = should_log-is_heard g l in
    elim (Bool-cases (is_heard g.current_level l)) [
      | inl on ↦
          rw (adds, same, on, written-append path g.outputs (lines g l text))
            (ap (λ s. written path g.outputs ++ s) (written-lines g path l text h))
      | inr off ↦ rw (adds, same, off) (written-append path g.outputs [])
    ]

-- A call, and then the others.
written-next :
    (g : Logger) (path timestamp : Str) (l : LogLevel) (message : Str) (file : Option Str)
    (line : ℤ) (function : Option Str) (final : Logger) (lines : LogLevel → List Str)
    → let g' = log g timestamp l message file line function in
      g.output_file ≡ some path
      → written path final.outputs ≡ written path g'.outputs ++ lines g'.current_level
      → written path final.outputs
        ≡ written path g.outputs
          ++ (if is_heard g.current_level l
              then format_message timestamp l message file line function ∷ lines g.current_level
              else lines g.current_level)
written-next g path timestamp l message file line function final lines h rest =
    let same_level = (log_state g timestamp l message file line function).1 in
    rw (rest, same_level, written-log g path timestamp l message file line function h)
      (append_assoc (written path g.outputs) _ _
        ∙ ap (λ s. written path g.outputs ++ s) (ground arith))

-- After calls of the methods and the macros and settings of the level and of the console, the file that is open has,
-- behind what it had, the lines of the calls that are heard at the level that was set last before
-- each, in order, and no others.
pub written-run :
    (g : Logger) (path : Str) (calls : List Call)
    → g.output_file ≡ some path
    → written path (run g calls).outputs ≡ written path g.outputs ++ heard g.current_level calls
unfolding run heard
written-run g path [] h = sym (append-nil _)
written-run g path (set_level l ∷ calls) h = written-run (set_log_level g l) path calls h
written-run g path (set_console b ∷ calls) h = written-run (set_console_output g b) path calls h
written-run g path (logs l timestamp message file line function ∷ calls) h =
    let g' : Logger = log g timestamp l message file line function in
    let same_file = (log_state g timestamp l message file line function).0 in
    rw (run, heard, method-log l g timestamp message file line function)
      (written-next g path timestamp l message file line function (run g' calls)
        (λ current. heard current calls) h (written-run g' path calls (same_file ∙ h)))
written-run g path (macro_logs l timestamp message file line function ∷ calls) h =
    let g' : Logger = log g timestamp l message (some file) line (some function) in
    let same_file = (log_state g timestamp l message (some file) line (some function)).0 in
    rw (run, heard, macro-log l g timestamp message file line function)
      (written-next g path timestamp l message (some file) line (some function) (run g' calls)
        (λ current. heard current calls) h (written-run g' path calls (same_file ∙ h)))
