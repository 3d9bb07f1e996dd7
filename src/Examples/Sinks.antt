-- ===== src/Examples/Sinks.antt =====
-- The file sink.
use epics_logfile.Base.{
  ◌+◌, ◌≡◌, ◌≤◌, ◌⊎◌, refl, true, false, [], ◌++◌, some, Bytes, codes, length, arith,
}
use epics_logfile.Base.Map.{find, bytes_key}
use epics_logfile.FileStream.{
  Disk, FileStream, put_line, new_size, make_room, rotate, close, open_file, open_over, start, put,
  open_stream, close_stream, archive, ensure_open, format_c_data,
}
use epics_logfile.FileStream.CData.{read_sections, format_c_data_lem}
use epics_logfile.FileStream.Bounds.{put_line-kept, closed_stays_closed, archived}

format_c_data_lem_example :
    (text : Bytes) × (format_c_data (codes "a]]>b") ≡ some text)
    × (read_sections false 0 text ≡ some (codes "a]]>b"))
format_c_data_lem_example = format_c_data_lem (codes "a]]>b")

abbrev disk : Disk
disk = record {
  file = some (codes "<logfile>\nx\n");
  mtime = 0;
  others = [];
  room = 1000;
  may_rename = true;
  may_open = true;
  now = 5;
}

abbrev full_file : FileStream
full_file = record {
  m_filename = codes "log";
  m_maxsize = 26;
  m_isopen = true;
  opened = true;
  good = true;
  disk = disk;
}

put_line-kept_example :
    (((put_line (codes "next\n") full_file).1.disk.file
        ≡ some (codes "<logfile>\nx\n" ++ codes "next\n"))
      × (length (codes "<logfile>\nx\n" ++ codes "next\n") + 12 ≤ 26))
    ⊎ (((put_line (codes "next\n") full_file).1.disk.file
          ≡ some (codes "<logfile>\n" ++ codes "next\n"))
        × (find (archived full_file 5) (put_line (codes "next\n") full_file).1.disk.others
            ≡ some (codes "<logfile>\nx\n" ++ codes "</logfile>\n")))
unfolding put_line new_size make_room rotate close open_file open_over start put open_stream
    close_stream archive
put_line-kept_example =
    put_line-kept (codes "next\n") (codes "<logfile>\nx\n") full_file refl refl refl refl

-- The stream after a rotation in which the file could not be renamed.
abbrev stuck_file : FileStream
stuck_file = record full_file { opened = false; m_maxsize = 1000 }

closed_stays_closed_example :
    let (written, after) = put_line (codes "next\n") (ensure_open stuck_file).1 in
    (written ≡ false) × (after.m_isopen ≡ true) × (after.opened ≡ false) × (after.disk ≡ disk)
closed_stays_closed_example =
    closed_stays_closed (codes "next\n") stuck_file refl refl (omega arith)
