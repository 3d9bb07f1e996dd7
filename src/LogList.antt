-- ===== src/LogList.antt =====
-- Qt/QLogList.h, Qt/QLogList.cpp: the list of events that the Qt views show. Of Qt, the views are
-- told of inserted and removed rows, and a QVariant is a text, a brush or invalid.
pub mod Expiry
use epics_logfile.Base.{
  ℕ, zero, suc, ◌+◌, ◌-◌, ◌*◌, ◌/◌, Bool, true, false, ◌&&◌, ◌||◌, not, List, [], ◌∷◌, ◌++◌, Option,
  none, some, Bytes, codes, length, take, drop, ltb, leb, ◌==◌, if◌then◌else◌, Result, ok, throw,
  ◌>>=◌, bytes_eq,
}
use epics_logfile.Level.{
  Level, finest, finer, fine, info, warning, severe, severity, level_lt, level_name,
}
use epics_logfile.Event.{LogEvent, second}

-- beginInsertRows and beginRemoveRows, with the first and the last row.
pub data Signal : Type 0 where
  insert_rows remove_rows : ℕ → ℕ → Signal

-- do_write: the signal, the list, and that it always succeeds.
unfoldable pub do_write : LogEvent → List LogEvent → Bool × Signal × List LogEvent
do_write e m_log_events =
    (true, Signal.insert_rows (length m_log_events) (length m_log_events), m_log_events ++ e ∷ [])

-- duration_cast<seconds>(i->time - now).count() > 3600: a time in the past is never above.
unfoldable pub is_ahead : ℕ → LogEvent → Bool
is_ahead now e = ltb 3600 ((e.time - now) / second)

-- The levels that are tested for.
unfoldable pub is_debug : LogEvent → Bool
unfolding severity
is_debug e =
    severity e.level == severity finest
    || severity e.level == severity finer
    || severity e.level == severity fine

-- What comes of the loop. After erase() in the middle of the loop, `++i` is done on an iterator
-- that QList has made invalid.
pub data Expired : Type 0 where
  returned : Option Signal → List LogEvent → Expired
  invalid_iterator : Expired

-- beginRemoveRows and erase(first_it, i), then the return or the end of the loop.
remove_run : List LogEvent → ℕ → Option ℕ → Expired
remove_run m_log_events row none = Expired.returned none m_log_events
remove_run m_log_events row (some first_row) =
    Expired.returned (some (Signal.remove_rows first_row (row - 1)))
      (take first_row m_log_events ++ drop row m_log_events)

-- first_row, and with it first_it, behind the test of a debug entry at `row`.
first_run : ℕ → Option ℕ → ℕ
first_run row none = row
first_run row (some first_row) = first_row

-- Another entry behind a run of debug entries: erase, then `++i`.
behind_run : Option ℕ → Expired → Expired
behind_run none rest = rest
behind_run (some first_row) rest = Expired.invalid_iterator

-- The loop over the entries from `row` on.
expire_from : ℕ → List LogEvent → ℕ → Option ℕ → List LogEvent → Expired
unfolding remove_run first_run behind_run
expire_from now m_log_events row first_row [] = remove_run m_log_events row first_row
expire_from now m_log_events row first_row (e ∷ es) =
    let rest =
      expire_from now m_log_events (row + 1)
        (if is_debug e then some (first_run row first_row) else first_row) es in
    if is_ahead now e
    then remove_run m_log_events row first_row
    else if is_debug e
    then rest
    else behind_run first_row rest

-- expire, at the time `now`.
unfoldable pub expire : ℕ → List LogEvent → Expired
unfolding expire_from
expire now m_log_events = expire_from now m_log_events 0 none m_log_events

-- columnCount and rowCount.
column_count : ℕ
column_count = 4

row_count : List LogEvent → ℕ
row_count m_log_events = length m_log_events

pub data Role : Type 0 where
  display foreground background other : Role

pub data Color : Type 0 where
  gray black yellow red white : Color

pub data Variant : Type 0 where
  invalid : Variant
  text : Bytes → Variant
  brush : Color → Variant

text_of : ℕ → LogEvent → Result Variant
unfolding level_name
text_of zero e = ok (Variant.text e.time_string)
text_of (suc zero) e = do name ← level_name e.level; ok (Variant.text name)
text_of (suc (suc zero)) e = ok (Variant.text e.subsystem_string)
text_of (suc (suc (suc zero))) e = ok (Variant.text e.message)
text_of column e = ok Variant.invalid

cell : ℕ → Role → LogEvent → Result Variant
unfolding text_of level_lt severity
cell column Role.display e = text_of column e
cell column Role.foreground e =
    ok (if level_lt e.level info then Variant.brush Color.gray else Variant.brush Color.black)
cell column Role.background e = ok (
    if severity e.level == severity warning
    then Variant.brush Color.yellow
    else if severity e.level == severity severe
    then Variant.brush Color.red
    else Variant.brush Color.white)
cell column Role.other e = ok Variant.invalid

-- data, for a valid index; an invalid one, `none`, has no data.
data_at : Option (ℕ × ℕ) → Role → List LogEvent → Result Variant
unfolding cell
data_at none role m_log_events = ok Variant.invalid
data_at (some (row, column)) role m_log_events = elim (drop row m_log_events) [
  | [] ↦ ok Variant.invalid
  | e ∷ es ↦ cell column role e
]

header_text : ℕ → Variant
header_text zero = Variant.text (codes "Time")
header_text (suc zero) = Variant.text (codes "Severity")
header_text (suc (suc zero)) = Variant.text (codes "Component")
header_text (suc (suc (suc zero))) = Variant.text (codes "Message")
header_text section = Variant.invalid

-- headerData.
header_data : ℕ → Role → Variant
unfolding header_text
header_data section Role.display = header_text section
header_data section Role.foreground = Variant.invalid
header_data section Role.background = Variant.invalid
header_data section Role.other = Variant.invalid
