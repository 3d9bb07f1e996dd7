-- ===== src/FileStream.antt =====
-- output_stream_file.h, output_stream_file.cpp: the sink that writes to a file, and moves the file
-- away when it is full. The file system around it is a `Disk`.
pub mod CData
pub mod Bounds
use epics_logfile.Base.{
  ℕ, zero, suc, ◌+◌, ◌-◌, Bool, true, false, ◌&&◌, List, [], ◌∷◌, ◌++◌, Option, none, some, Bytes,
  codes, length, take, ltb, leb, if◌then◌else◌, Result, ok, ◌>>=◌, find_text_from, substr,
  substr_from,
}
use epics_logfile.Base.Map.{find, place, erase, bytes_key}
use epics_logfile.Event.{LogEvent, format_timestamp}
use epics_logfile.Level.{level_name}

-- The directory that m_filename is in, and the std::ofstream: the file of that name and the time
-- of its last change, the other files, the bytes that the device has room for, and whether it
-- lets a file be renamed and opened. `now` is the system clock.
pub record Disk : Type 0 where
  pub file : Option Bytes
  pub mtime : ℕ
  pub others : List (Bytes × Bytes)
  pub room : ℕ
  pub may_rename : Bool
  pub may_open : Bool
  pub now : ℕ

-- m_stream: is a file open, and good(). What is put into it goes to the file of its name: `rename`
-- is only called when the stream is closed or has failed.
pub record FileStream : Type 0 where
  pub m_filename : Bytes
  pub m_maxsize : ℕ
  pub m_isopen : Bool
  pub opened : Bool
  pub good : Bool
  pub disk : Disk

-- m_stream << text; m_stream.flush(): a stream that has failed takes nothing, and the device takes
-- what it has room for.
unfoldable pub put : Bytes → FileStream → FileStream
put text f = elim f.disk.file [
  | none ↦ record f { good = false }
  | some old ↦
      if f.opened && f.good
      then record f {
        good = leb (length text) f.disk.room;
        disk = record f.disk {
          file = some (old ++ take f.disk.room text);
          mtime = f.disk.now;
          room = f.disk.room - length text;
        };
      }
      else record f { good = false }
]

-- m_stream.open(m_filename): it makes the file empty; it fails on a stream that is open.
unfoldable pub open_stream : FileStream → FileStream
open_stream f =
    if f.opened
    then record f { good = false }
    else if f.disk.may_open
    then record f { opened = true; good = true; disk = record f.disk { file = some [] } }
    else record f { good = false }

-- m_stream.close().
unfoldable pub close_stream : FileStream → FileStream
close_stream f = if f.opened then record f { opened = false } else record f { good = false }

-- archive: ::rename replaces a file that has the new name already.
unfoldable pub archive : ℕ → FileStream → Bool × FileStream
archive t f =
    let archived = f.m_filename ++ codes "-" ++ format_timestamp t in
    elim f.disk.file [
      | none ↦ (false, f)
      | some text ↦
          if f.disk.may_rename
          then (
            true,
            record f {
              disk = record f.disk {
                file = none;
                others = place archived text (erase archived f.disk.others);
              };
            },
          )
          else (false, f)
    ]

-- close.
unfoldable pub close : FileStream → Bool × FileStream
unfolding put close_stream archive
close f = let closed = close_stream (put (codes "</logfile>\n") f) in archive closed.disk.now closed

-- open, from `m_stream.open` on.
unfoldable pub start : FileStream → Bool × FileStream
unfolding open_stream put
start f =
    let g = put (codes "<logfile>\n") (open_stream f) in (g.good, record g { m_isopen = g.good })

-- open: a file that is there is archived under the time of its last change.
unfoldable pub open_over : Option Bytes → FileStream → Bool × FileStream
unfolding archive start
open_over none f = start f
open_over (some text) f =
    let (moved, g) = archive f.disk.mtime f in if moved then start g else (false, g)

unfoldable pub open_file : FileStream → Bool × FileStream
unfolding open_over
open_file f = open_over f.disk.file f

unfoldable pub rotate : FileStream → Bool × FileStream
unfolding close open_file
rotate f = open_file (close f).1

-- The constructor. m_isopen has no value before open(): it is an argument.
new_file_stream : Bool → Disk → Bytes → ℕ → FileStream
unfolding open_file
new_file_stream m_isopen disk filename maxsize =
    (open_file (record {
      m_filename = filename;
      m_maxsize = maxsize;
      m_isopen = m_isopen;
      opened = false;
      good = true;
      disk = disk;
    })).1

-- The loop of formatCData from `pos` on; `none` means that the fuel ran out.
format_from : ℕ → Bytes → ℕ → Option Bytes
format_from zero data_ pos = none
format_from (suc fuel) data_ pos = elim (find_text_from (codes "]]>") data_ pos) [
  | none ↦ some (substr_from data_ pos ++ codes "]]>")
  | some i ↦ elim (format_from fuel data_ (i + 2)) [
    | none ↦ none
    | some rest ↦ some (substr data_ pos (i - pos + 2) ++ (codes "]]><![CDATA[" ++ rest))
  ]
]

unfoldable pub format_c_data : Bytes → Option Bytes
unfolding format_from
format_c_data data_ = elim (format_from (suc (length data_)) data_ 0) [
  | none ↦ none
  | some text ↦ some (codes "<![CDATA[" ++ text)
]

-- The line of do_write.
message_line : Bytes → Bytes → LogEvent → Bytes
message_line level text e =
    codes "<message level=\""
    ++ level
    ++ codes "\"><time>"
    ++ e.time_string
    ++ codes "</time><subsystem>"
    ++ e.subsystem_string
    ++ codes "</subsystem><function>"
    ++ e.function
    ++ codes "</function><text>"
    ++ text
    ++ codes "</text></message>\n"

-- m_stream.tellp(), plus what the line and the end of the file need. A stream that has failed has
-- the position -1.
unfoldable pub new_size : Bytes → FileStream → ℕ
new_size line f = elim f.disk.file [
  | none ↦ length line + 11
  | some text ↦ if f.opened && f.good then length text + length line + 12 else length line + 11
]

-- do_write's rotation, if the line does not fit.
unfoldable pub make_room : Bool → FileStream → FileStream
unfolding rotate
make_room true f = (rotate f).1
make_room false f = f

-- do_write, from `new_size` on.
unfoldable pub put_line : Bytes → FileStream → Bool × FileStream
unfolding new_size make_room put
put_line line f = let g = put line (make_room (ltb f.m_maxsize (new_size line f)) f) in (g.good, g)

-- Is the file open, if need be after an attempt to open it?
unfoldable pub ensure_open : FileStream → Bool × FileStream
unfolding open_file
ensure_open f = if f.m_isopen then (true, f) else open_file f

unfoldable pub do_write : LogEvent → FileStream → Result (Option (Bool × FileStream))
unfolding ensure_open message_line put_line format_c_data level_name
do_write e f =
    let (is_open, g) = ensure_open f in
    if is_open
    then (do
      level ← level_name e.level
      elim (format_c_data e.message) [
        | none ↦ ok none
        | some text ↦ ok (some (put_line (message_line level text e) g))
      ])
    else ok (some (false, g))
