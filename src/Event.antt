-- ===== src/Event.antt =====
-- log_event.h, log_event.cpp: a log event, and the two texts for its time. A time point counts the
-- nanoseconds since the epoch, as std::chrono::system_clock does, and is not before the epoch.
use epics_logfile.Base.{ℕ, ◌/◌, ◌%◌, ◌++◌, ◌∷◌, Bytes}
use epics_logfile.Base.Decimal.{decimal, pad_left}
use epics_logfile.Level.{Level}

pub record LogEvent : Type 0 where
  pub level : Level
  pub subsystem : ℕ
  pub message : Bytes
  pub time : ℕ
  pub function : Bytes
  pub subsystem_string : Bytes
  pub time_string : Bytes

-- std::chrono::system_clock's ticks in a second and in a millisecond.
abbrev pub second : ℕ
second = 1000000000

abbrev millisecond : ℕ
millisecond = 1000000

-- `strftime` stands for std::strftime with "%Y-%m-%d %H:%M:%S" on std::localtime of the seconds.
unfoldable pub format_time : (ℕ → Bytes) → ℕ → Bytes
format_time strftime t =
    strftime (t / second) ++ (b'.' ∷ pad_left b'0' 3 (decimal (t % second / millisecond)))

unfoldable pub format_timestamp : ℕ → Bytes
format_timestamp t =
    decimal (t / second) ++ (b'.' ∷ pad_left b'0' 3 (decimal (t % second / millisecond)))
