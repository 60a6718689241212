-- ===== src/Tests/Logs.antt =====
-- A logger with a file, and two calls.
use packet_classifier.Prelude.{
  arith, ℕ, ◌%◌, List, false, ◌≡◌, refl, true, [], ◌∷◌, ◌++◌, none, some,
}
use packet_classifier.Prelude.Int.{pos}
use packet_classifier.Text.{codes}
use packet_classifier.Logger.{
  Logger, LogLevel, new, log, set_output_file, format_message, filename, to_cerr, to_file, opened,
  place, after_last_slash,
}
use packet_classifier.Logger.Timestamp.{
  Tm, put_time, get_current_timestamp, to_time_t, milliseconds,
}
use packet_classifier.Logger.Reading.{read_line}
use packet_classifier.Logger.Roundtrip.{read_line-format_message}
use packet_classifier.Logger.Sessions.{
  Call, logs, macro_logs, set_level, set_console, run, written, heard, written-run,
}
use packet_classifier.Text.{to_string, to_string_ℤ, pad}
use packet_classifier.Text.Numbers.{Lacks}

program : Unit {0}
unfolding set_output_file log format_message filename after_last_slash place to_string_ℤ to_string
    put_time get_current_timestamp pad heard
program = tt

abbrev to_log : Logger
to_log = set_output_file new (codes "a.log") true true

failed :
    (log to_log
      (codes "now")
      LogLevel.error
      (codes "lost")
      (some (codes "src/m.cpp"))
      (pos 12)
      none).outputs
    ≡ opened (codes "a.log") true
      ∷ to_cerr (codes "[now] [ERROR] [m.cpp:12] lost")
      ∷ to_file (codes "a.log") (codes "[now] [ERROR] [m.cpp:12] lost")
      ∷ []
unfolding program
failed = refl

-- A clock at one instant: 2024-03-09 07:05:02.042.
abbrev localtime : ℕ → Tm
localtime seconds = record {
  tm_year = 124;
  tm_mon = 2;
  tm_mday = 9;
  tm_hour = 7;
  tm_min = 5;
  tm_sec = seconds % 60;
}

abbrev now : ℕ
now = 1709967902042999999

stamped : get_current_timestamp localtime now ≡ codes "2024-03-09 07:05:02.042"
unfolding program
stamped = refl

pool_cpp-Lacks : Lacks b':' (filename (codes "src/pool.cpp"))
unfolding program
pool_cpp-Lacks = ground arith

grow-Lacks : Lacks b')' (codes "grow")
grow-Lacks = ground arith

read_line-format_message_example :
    read_line (
      format_message
        (get_current_timestamp localtime now)
        LogLevel.warning
        (codes "full: [3]")
        (some (codes "src/pool.cpp"))
        (pos 12)
        (some (codes "grow")))
    ≡ some (record {
      time = localtime (to_time_t now);
      millisecond = milliseconds now;
      level = LogLevel.warning;
      file = filename (codes "src/pool.cpp");
      line = 12;
      function = codes "grow";
      message = codes "full: [3]";
    })
read_line-format_message_example =
    read_line-format_message localtime now LogLevel.warning (codes "full: [3]")
      (codes "src/pool.cpp") 11 (codes "grow") pool_cpp-Lacks grow-Lacks

abbrev calls : List Call
calls =
    logs LogLevel.debug (codes "t0") (codes "unheard") none (pos 0) none
    ∷ set_console false
    ∷ set_level LogLevel.debug
    ∷ logs LogLevel.debug (codes "t1") (codes "heard") none (pos 0) none
    ∷ macro_logs LogLevel.error (codes "t2") (codes "lost") (codes "p/m.cpp") (pos 3) (codes "f")
    ∷ []

only_two :
    heard LogLevel.info calls
    ≡ codes "[t1] [DEBUG] heard" ∷ codes "[t2] [ERROR] [m.cpp:3 (f)] lost" ∷ []
unfolding program
only_two = refl

to_log_file : to_log.output_file ≡ some (codes "a.log")
unfolding program
to_log_file = refl

written-run_example :
    written (codes "a.log") (run to_log calls).outputs
    ≡ written (codes "a.log") to_log.outputs ++ heard to_log.current_level calls
written-run_example = written-run to_log (codes "a.log") calls to_log_file
