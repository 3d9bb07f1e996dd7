-- ===== src/Stdout.antt =====
-- output_stream_stdout.h, output_stream_stdout.cpp: the sink that writes coloured lines to a
-- std::ostream, where SuS_HAS_COLOR and COLOR_ENTIRE_LINE are defined.
pub mod Stoi
pub mod Environment
pub mod Columns
use epics_logfile.Base.{
  ℕ, ◌+◌, ◌-◌, Bool, true, false, ◌&&◌, ◌||◌, not, List, [], ◌∷◌, ◌++◌, Option, none, some, Bytes,
  codes, length, take, replicate, ltb, leb, ◌==◌, if◌then◌else◌, Result, ok, throw, ◌>>=◌, substr,
  substr_from, is_empty, bytes_eq, Exception, invalid_argument, out_of_range, runtime_error,
}
use epics_logfile.Base.Decimal.{pad_right}
use epics_logfile.Level.{
  Level, finest, finer, fine, config, info, warning, severe, name_at, level_name,
}
use epics_logfile.Event.{LogEvent}
use epics_logfile.OutputStream.{StreamClass}
use epics_logfile.Stdout.Stoi.{Parsed, stoi, byte_at, is_negative}

-- The tables that m_colors can point to.
pub data Colors : Type 0 where
  s_colors s_colors256dark s_colors256light : Colors

-- "\033[" ++ code ++ "m".
abbrev pub escape : Bytes → Bytes
escape code = 27 ∷ codes "[" ++ code ++ codes "m"

abbrev upper_colors : List (Level × Bytes)
upper_colors =
    (config, escape (codes "32"))
    ∷ (info, escape (codes "33"))
    ∷ (warning, escape (codes "31"))
    ∷ (severe, escape (codes "1;31"))
    ∷ []

table : Colors → List (Level × Bytes)
table s_colors =
    (finest, escape (codes "37")) ∷ (finer, escape (codes "37")) ∷ (fine, []) ∷ upper_colors
table s_colors256dark =
    (finest, escape (codes "38;5;240"))
    ∷ (finer, escape (codes "38;5;244"))
    ∷ (fine, escape (codes "38;5;248"))
    ∷ upper_colors
table s_colors256light =
    (finest, escape (codes "38;5;248"))
    ∷ (finer, escape (codes "38;5;244"))
    ∷ (fine, escape (codes "38;5;240"))
    ∷ upper_colors

-- m_colors->at(_l).
unfoldable pub color_at : Colors → Level → Result Bytes
unfolding table
color_at m_colors l = name_at l (table m_colors)

-- The try block from the second std::stoi on.
read_background : Bytes → Result Colors
unfolding is_negative
read_background bg = do
  (color_bg, next) ← stoi bg
  ok (
      if not (next == length bg)
      then s_colors256dark
      else if is_negative color_bg
      then s_colors256dark
      else if color_bg.magnitude == 7 || ltb 9 color_bg.magnitude
      then s_colors256light
      else s_colors256dark)

-- The try block: m_colors after it. It is s_colors256dark before.
read_fgbg : Bytes → Result Colors
unfolding is_negative read_background
read_fgbg fgbg = do
  (color_fg, next) ← stoi fgbg
  (if next == length fgbg
      then ok s_colors256dark
      else if not (byte_at next fgbg == b';')
      then ok s_colors256dark
      else if is_negative color_fg
      then ok s_colors256dark
      else read_background (substr_from fgbg (next + 1)))

-- catch (std::invalid_argument &): m_colors stays as it is.
abbrev ignore_invalid : Result Colors → Result Colors
ignore_invalid (ok c) = ok c
ignore_invalid (throw (invalid_argument what)) = ok s_colors256dark
ignore_invalid (throw (runtime_error what)) = throw (runtime_error what)
ignore_invalid (throw (out_of_range what)) = throw (out_of_range what)

init_colors256 : Option Bytes → Result Colors
unfolding read_fgbg
init_colors256 none = ok s_colors256dark
init_colors256 (some fgbg) = ignore_invalid (read_fgbg fgbg)

-- init_colors; `term` and `colorfgbg` are what ::getenv gives for TERM and COLORFGBG.
unfoldable pub init_colors : Option Bytes → Option Bytes → Result Colors
unfolding init_colors256
init_colors none colorfgbg = ok s_colors
init_colors (some term) colorfgbg =
    if ltb (length term) 9 || not (bytes_eq (substr term (length term - 9) 9) (codes "-256color"))
    then ok s_colors
    else init_colors256 colorfgbg

-- m_stream: whether it is good(), and what its device has taken.
pub record Ostream : Type 0 where
  pub good : Bool
  pub text : Bytes

pub record Stdout : Type 0 where
  pub m_colors : Colors
  pub m_name : Bytes
  pub m_stream : Ostream

-- The constructor.
new_stdout : Option Bytes → Option Bytes → Bytes → Ostream → Result Stdout
unfolding init_colors
new_stdout term colorfgbg name stream = do
  colors ← init_colors term colorfgbg
  ok (record {
    m_colors = colors;
    m_name = if is_empty name then codes "stdout" else name;
    m_stream = stream;
  })

-- subsystem.resize(8, ' ').
unfoldable pub resize : ℕ → ℕ → Bytes → Bytes
resize n c s = take n s ++ replicate (n - length s) c

-- The text that is put into the std::stringstream.
unfoldable pub line : Colors → LogEvent → Result Bytes
unfolding color_at resize
line m_colors e = do
  color ← color_at m_colors e.level
  name ← level_name e.level
  ok (
      color
      ++ (e.time_string
          ++ (codes " ["
              ++ (pad_right b' ' 7 name
                  ++ (codes "] ["
                      ++ (resize 8 b' ' e.subsystem_string
                          ++ (codes "] " ++ (e.message ++ (escape (codes "0") ++ codes "\n")))))))))

-- m_stream << msg, with a device that takes `msg` whole or not at all. A stream that is not good
-- takes nothing, and nothing here makes it good again.
unfoldable pub put : (Bytes → Bytes → Bool) → Bytes → Ostream → Ostream
put takes msg o =
    if o.good
    then (if takes o.text msg then record o { text = o.text ++ msg } else record o { good = false })
    else o

unfoldable pub put_line : (Bytes → Bytes → Bool) → Bytes → Stdout → Bool × Stdout
unfolding put
put_line takes msg s = let o = put takes msg s.m_stream in (o.good, record s { m_stream = o })

unfoldable pub do_write : (Bytes → Bytes → Bool) → LogEvent → Stdout → Result (Bool × Stdout)
unfolding put_line line
do_write takes e s = do msg ← line s.m_colors e; ok (put_line takes msg s)

-- name and retry_time.
unfoldable pub name : Stdout → Bytes
name s = s.m_name

unfoldable pub retry_time : Stdout → ℕ
retry_time s = 10

abbrev pub caught : Stdout → Result (Bool × Stdout) → Bool × Stdout
caught s (ok r) = r
caught s (throw x) = (false, s)

-- The class, for the threads that use it. do_write does not throw, as every level has a name and a
-- colour in each table.
unfoldable pub stdout_class : (Bytes → Bytes → Bool) → StreamClass Stdout
unfolding do_write name retry_time
stdout_class takes = record {
  do_write = λ e s. caught s (do_write takes e s);
  name = name;
  retry_time = retry_time;
  destructor = λ s. true;
}
