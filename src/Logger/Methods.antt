-- ===== src/Logger/Methods.antt =====
-- The methods and macros of src/utils/logging.cpp and its header that only pass a level to `log`,
-- the getter of the level, and the destructor. A macro passes the place where it stands.
use packet_classifier.Prelude.{Option, none, some}
use packet_classifier.Prelude.Int.{ℤ}
use packet_classifier.Text.{Str}
use packet_classifier.Logger.{LogLevel, Logger, log, log_msg}

abbrev pub get_log_level : Logger → LogLevel
get_log_level g = g.current_level

-- The destructor closes the file.
abbrev pub destroy : Logger → Logger
destroy g = record g { output_file = none }

unfoldable pub error : Logger → Str → Str → Option Str → ℤ → Option Str → Logger
error g timestamp message file line function =
    log g timestamp LogLevel.error message file line function

unfoldable pub warning : Logger → Str → Str → Option Str → ℤ → Option Str → Logger
warning g timestamp message file line function =
    log g timestamp LogLevel.warning message file line function

unfoldable pub info : Logger → Str → Str → Option Str → ℤ → Option Str → Logger
info g timestamp message file line function =
    log g timestamp LogLevel.info message file line function

unfoldable pub debug : Logger → Str → Str → Option Str → ℤ → Option Str → Logger
debug g timestamp message file line function =
    log g timestamp LogLevel.debug message file line function

unfoldable pub trace : Logger → Str → Str → Option Str → ℤ → Option Str → Logger
trace g timestamp message file line function =
    log g timestamp LogLevel.trace message file line function

unfoldable pub log_error : Logger → Str → Str → Str → ℤ → Str → Logger
log_error g timestamp message file line function =
    log_msg g timestamp LogLevel.error message (some file) line (some function)

unfoldable pub log_warning : Logger → Str → Str → Str → ℤ → Str → Logger
log_warning g timestamp message file line function =
    log_msg g timestamp LogLevel.warning message (some file) line (some function)

unfoldable pub log_info : Logger → Str → Str → Str → ℤ → Str → Logger
log_info g timestamp message file line function =
    log_msg g timestamp LogLevel.info message (some file) line (some function)

unfoldable pub log_debug : Logger → Str → Str → Str → ℤ → Str → Logger
log_debug g timestamp message file line function =
    log_msg g timestamp LogLevel.debug message (some file) line (some function)

unfoldable pub log_trace : Logger → Str → Str → Str → ℤ → Str → Logger
log_trace g timestamp message file line function =
    log_msg g timestamp LogLevel.trace message (some file) line (some function)
