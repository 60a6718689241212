-- ===== src/Logger/Reading.antt =====
-- A reader of the lines that `formatMessage` of src/utils/logging.cpp writes for the macros, which
-- pass the file, the line and the function.
use packet_classifier.Prelude.{ℕ, ◌-◌, Option, none, some, if◌then◌else◌, ◌>>=◌}
use packet_classifier.Text.{Str, codes, same_text}
use packet_classifier.Text.Numbers.{split_at, number}
use packet_classifier.Logger.{LogLevel, no_level, error, warning, info, debug, trace}
use packet_classifier.Logger.Timestamp.{Tm}

unfoldable pub read_date : Str → Option Tm
read_date s = do
  (year, s1) ← split_at b'-' s
  (month, s2) ← split_at b'-' s1
  (day, s3) ← split_at b' ' s2
  (hour, s4) ← split_at b':' s3
  (minute, second) ← split_at b':' s4
  some (record {
    tm_year = number year - 1900;
    tm_mon = number month - 1;
    tm_mday = number day;
    tm_hour = number hour;
    tm_min = number minute;
    tm_sec = number second;
  })

abbrev pub read_level : Str → Option LogLevel
read_level s =
    if same_text s (codes "NONE")
    then some no_level
    else if same_text s (codes "ERROR")
    then some error
    else if same_text s (codes "WARNING")
    then some warning
    else if same_text s (codes "INFO")
    then some info
    else if same_text s (codes "DEBUG")
    then some debug
    else if same_text s (codes "TRACE")
    then some trace
    else none

pub record Entry : Type 0 where
  pub time : Tm
  pub millisecond : ℕ
  pub level : LogLevel
  pub file : Str
  pub line : ℕ
  pub function : Str
  pub message : Str

-- What follows the bracket that opens the place.
unfoldable pub read_place : Tm → Str → LogLevel → Str → Option Entry
read_place time millisecond level s5 = do
  (file, s6) ← split_at b':' s5
  (line, s7) ← split_at b' ' s6
  (paren, s8) ← split_at b'(' s7
  (function, s9) ← split_at b')' s8
  (bracket, message) ← split_at b' ' s9
  some (record {
    time = time;
    millisecond = number millisecond;
    level = level;
    file = file;
    line = number line;
    function = function;
    message = message;
  })

unfoldable pub read_line : Str → Option Entry
unfolding read_date read_place
read_line s = do
  (before, s1) ← split_at b'[' s
  (stamp, s2) ← split_at b']' s1
  (date, millisecond) ← split_at b'.' stamp
  time ← read_date date
  (gap, s3) ← split_at b'[' s2
  (name, s4) ← split_at b']' s3
  level ← read_level name
  (space, s5) ← split_at b'[' s4
  read_place time millisecond level s5
