-- ===== src/Logger/Timestamp.antt =====
-- `getCurrentTimestamp` of src/utils/logging.cpp. `localtime_r` is an argument; the clock counts the
-- nanoseconds since the epoch.
use packet_classifier.Prelude.{ℕ, suc, ◌+◌, ◌/◌, ◌%◌, ◌∷◌, ◌++◌}
use packet_classifier.Text.{Str, to_string, pad}

pub record Tm : Type 0 where
  pub tm_year : ℕ
  pub tm_mon : ℕ
  pub tm_mday : ℕ
  pub tm_hour : ℕ
  pub tm_min : ℕ
  pub tm_sec : ℕ

-- `std::put_time(&timeinfo, "%Y-%m-%d %H:%M:%S")`, for years from 1900.
unfoldable pub put_time : Tm → Str
put_time t =
    to_string (1900 + t.tm_year)
    ++ b'-'
      ∷ (pad 2 (to_string (suc t.tm_mon))
          ++ b'-'
            ∷ (pad 2 (to_string t.tm_mday)
                ++ b' '
                  ∷ (pad 2 (to_string t.tm_hour)
                      ++ b':' ∷ (pad 2 (to_string t.tm_min) ++ b':' ∷ pad 2 (to_string t.tm_sec)))))

abbrev pub to_time_t : ℕ → ℕ
to_time_t now = now / 1000000000

abbrev pub milliseconds : ℕ → ℕ
milliseconds now = now / 1000000 % 1000

unfoldable pub get_current_timestamp : (ℕ → Tm) → ℕ → Str
unfolding put_time
get_current_timestamp localtime now =
    put_time (localtime (to_time_t now)) ++ b'.' ∷ pad 3 (to_string (milliseconds now))
