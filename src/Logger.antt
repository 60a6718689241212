-- ===== src/Logger.antt =====
-- src/utils/logging.cpp and its header. The time stamp and the success of the opening of a file are
-- arguments; `outputs` is what was written, in order.
pub mod Lines
pub mod Timestamp
pub mod Reading
pub mod Roundtrip
pub mod Methods
pub mod Sessions
use packet_classifier.Prelude.{
  ℕ, Bool, true, false, ◌&&◌, ◌||◌, not, List, [], ◌∷◌, ◌++◌, Option, none, some, leb, ltb, ◌==◌,
  if◌then◌else◌,
}
use packet_classifier.Prelude.Int.{ℤ, pos, ltb_ℤ}
use packet_classifier.Text.{Str, codes, is_empty, to_string_ℤ}

pub data LogLevel : Type 0 where
  no_level error warning info debug trace : LogLevel

-- The order of the enum.
abbrev pub value : LogLevel → ℕ
value no_level = 0
value error = 1
value warning = 2
value info = 3
value debug = 4
value trace = 5

abbrev pub level_to_string : LogLevel → Str
level_to_string no_level = codes "NONE"
level_to_string error = codes "ERROR"
level_to_string warning = codes "WARNING"
level_to_string info = codes "INFO"
level_to_string debug = codes "DEBUG"
level_to_string trace = codes "TRACE"

-- A line to a console stream or to the file of a path, and the opening of a file.
pub data Output : Type 0 where
  to_cout to_cerr : Str → Output
  to_file : Str → Str → Output
  opened : Str → Bool → Output

-- `output_file` is the path of the open stream.
pub record Logger : Type 0 where
  pub current_level : LogLevel
  pub console_output_enabled : Bool
  pub output_file_path : Str
  pub output_file : Option Str
  pub outputs : List Output

abbrev pub new : Logger
new = record {
  current_level = info;
  console_output_enabled = true;
  output_file_path = [];
  output_file = none;
  outputs = [];
}

abbrev pub set_log_level : Logger → LogLevel → Logger
set_log_level g level = record g { current_level = level }

abbrev pub set_console_output : Logger → Bool → Logger
set_console_output g enabled = record g { console_output_enabled = enabled }

-- `opens` is whether the file can be opened.
unfoldable pub set_output_file : Logger → Str → Bool → Bool → Logger
set_output_file g file_path append opens =
    if is_empty file_path
    then record g { output_file_path = file_path; output_file = none }
    else if opens
    then record g {
      output_file_path = file_path;
      output_file = some file_path;
      outputs = g.outputs ++ opened file_path append ∷ [];
    }
    else record g {
      output_file_path = [];
      output_file = none;
      outputs =
          g.outputs
          ++ to_cerr (codes "Error: Logger failed to open output file: " ++ file_path) ∷ [];
    }

abbrev pub is_slash : ℕ → Bool
is_slash c = c == b'/' || c == 92

-- What follows the last slash of either kind.
unfoldable pub after_last_slash : Str → Option Str
after_last_slash [] = none
after_last_slash (c ∷ rest) = elim (after_last_slash rest) [
  | none ↦ if is_slash c then some rest else none
  | some name ↦ some name
]

unfoldable pub filename : Str → Str
unfolding after_last_slash
filename file = elim (after_last_slash file) [ none ↦ file | some name ↦ name ]

-- The place of the call; a null pointer is `none`.
abbrev pub function_tag : Option Str → Str
function_tag none = []
function_tag (some function) = codes "[" ++ (function ++ codes "] ")

abbrev pub function_part : Option Str → Str
function_part none = []
function_part (some function) = codes " (" ++ (function ++ codes ")")

unfoldable pub place : Option Str → ℤ → Option Str → Str
unfolding filename
place none line function = function_tag function
place (some file) line function =
    if ltb_ℤ (pos 0) line
    then codes "["
      ++ (filename file
          ++ (codes ":" ++ (to_string_ℤ line ++ (function_part function ++ codes "] "))))
    else function_tag function

unfoldable pub format_message : Str → LogLevel → Str → Option Str → ℤ → Option Str → Str
unfolding place
format_message timestamp level message file line function =
    codes "["
    ++ (timestamp
        ++ (codes "] "
            ++ (codes "["
                ++ (level_to_string level
                    ++ (codes "] " ++ (place file line function ++ message))))))

abbrev pub is_error : LogLevel → Bool
is_error level = value level == value error

abbrev pub console_line : LogLevel → Str → Output
console_line level text = if is_error level then to_cerr text else to_cout text

abbrev pub file_lines : Option Str → Str → List Output
file_lines none text = []
file_lines (some path) text = to_file path text ∷ []

unfoldable pub log : Logger → Str → LogLevel → Str → Option Str → ℤ → Option Str → Logger
unfolding format_message
log g timestamp level message file line function =
    let text = format_message timestamp level message file line function in
    if ltb (value g.current_level) (value level) || value level == value no_level
    then g
    else record g {
      outputs =
          (g.outputs ++ (if g.console_output_enabled then console_line level text ∷ [] else []))
          ++ file_lines g.output_file text;
    }

-- The macro `SHOULD_LOG`, and the macro that logs.
abbrev pub should_log : Logger → LogLevel → Bool
should_log g level =
    leb (value level) (value g.current_level) && not (value level == value no_level)

unfoldable pub log_msg : Logger → Str → LogLevel → Str → Option Str → ℤ → Option Str → Logger
unfolding log
log_msg g timestamp level message file line function =
    if should_log g level then log g timestamp level message file line function else g
