-- ===== src/FileStream/Bounds.antt =====
-- How large the file gets, and what is kept when it is full: the last part of do_write.
use mathlib.Core.Option.{map}
use epics_logfile.Base.{
  ℕ, zero, suc, ◌+◌, ◌≤◌, ◌≡◌, ◌⊎◌, inl, inr, refl, sym, subst, ◌∙◌, true, false, ◌++◌, ◌∷◌, [],
  none, some, Bytes, codes, List, length, take, ltb, arith, Bool-cases, Option-cases, length-append,
  bytes_eq_refl, ap,
}
use epics_logfile.Base.Map.{find, place, erase, bytes_key, find-place, find-erase}
use epics_logfile.Event.{format_timestamp}
use epics_logfile.FileStream.{
  FileStream, put, open_stream, close_stream, archive, close, start, open_file, rotate, new_size,
  make_room, put_line, open_over, ensure_open,
}

take_enough : (room : ℕ) (text : Bytes) → length text ≤ room → take room text ≡ text
take_enough zero [] h = refl
take_enough (suc room) [] h = refl
take_enough zero (x ∷ xs) h = ground (arith)
take_enough (suc room) (x ∷ xs) h = ap (◌∷◌ x) (take_enough room xs (omega arith))

-- A put that leaves the stream good has stored the whole text.
put_good :
    (text old : Bytes) (f : FileStream)
    → f.disk.file ≡ some old
    → (put text f).good ≡ true
    → ((put text f).disk.file ≡ some (old ++ text))
      × (f.opened ≡ true)
      × (f.good ≡ true)
      × ((put text f).disk.others ≡ f.disk.others)
unfolding put
put_good text old f at h = ground (arith, at, take_enough f.disk.room text)

put_nowhere : (text : Bytes) (f : FileStream) → f.disk.file ≡ none → (put text f).good ≡ false
unfolding put
put_nowhere text f at = ground (arith, at)

find-replaced :
    (name text : Bytes) (m : List (Bytes × Bytes))
    → find name (place name text (erase name m)) ≡ some text
find-replaced name text m =
    let gone : find name (erase name m) ≡ none = rw (find-erase name name m, bytes_eq_refl name) in
    rw (find-place name name text (erase name m) gone, bytes_eq_refl name)

-- The name under which a file is kept.
abbrev pub archived : FileStream → ℕ → Bytes
archived f t = f.m_filename ++ codes "-" ++ format_timestamp t

-- A file that could be closed and renamed is kept whole.
close_kept :
    (old : Bytes) (f : FileStream)
    → f.opened ≡ true
    → f.good ≡ true
    → f.disk.file ≡ some old
    → ((close f).1.opened ≡ false)
      × (((close f).1.disk.file ≡ none
          → 1 ≤ (close f).1.disk.room
          → find (archived f f.disk.now) (close f).1.disk.others
            ≡ some (old ++ codes "</logfile>\n")))
unfolding close put archive close_stream
close_kept old f o g at = ground (
  arith,
  at,
  take_enough f.disk.room (codes "</logfile>\n"),
  find-replaced (archived f f.disk.now) (old ++ codes "</logfile>\n") f.disk.others,
)

start_good :
    (f : FileStream)
    → f.opened ≡ false
    → (start f).1.good ≡ true
    → ((start f).1.disk.file ≡ some (codes "<logfile>\n"))
      × (1 ≤ f.disk.room)
      × ((start f).1.disk.others ≡ f.disk.others)
unfolding start put open_stream
start_good f o h = ground (arith, take_enough f.disk.room (codes "<logfile>\n"))

close_stuck :
    (f : FileStream) (t : Bytes)
    → (close f).1.disk.file ≡ some t
    → (close f).1.disk.may_rename ≡ false
unfolding close put archive close_stream
close_stuck f t h = ground arith

open_file_stuck :
    (f : FileStream) (t : Bytes)
    → f.disk.file ≡ some t
    → f.disk.may_rename ≡ false
    → (open_file f).1.opened ≡ f.opened
unfolding open_file open_over archive
open_file_stuck f t at stuck = ground (arith, at, ap (λ o. open_over o f) at)

open_file_new : (f : FileStream) → f.disk.file ≡ none → open_file f ≡ start f
unfolding open_file open_over
open_file_new f at = ap (λ o. open_over o f) at

-- If the stream is good after a rotation, then the old file is kept, and the new one has its
-- first line.
rotate_good :
    (old : Bytes) (f : FileStream)
    → f.opened ≡ true
    → f.good ≡ true
    → f.disk.file ≡ some old
    → (rotate f).1.good ≡ true
    → (rotate f).1.opened ≡ true
    → ((rotate f).1.disk.file ≡ some (codes "<logfile>\n"))
      × (find (archived f f.disk.now) (rotate f).1.disk.others ≡ some (old ++ codes "</logfile>\n"))
unfolding rotate
rotate_good old f o g at h h' =
    let (closed, kept) = close_kept old f o g at in
    elim (Option-cases (close f).1.disk.file) [
      | inl free ↦
          let same = open_file_new (close f).1 free in
          let (new, room, others) =
            start_good (close f).1 closed (ap (λ r. r.1.good) (sym same) ∙ h) in
          (
            ap (λ r. r.1.disk.file) same ∙ new,
            ap (λ r. find (archived f f.disk.now) r.1.disk.others) same
                ∙ ap (find (archived f f.disk.now)) others
                ∙ kept free room,
          )
      | inr (t, there) ↦
          let stuck = open_file_stuck (close f).1 t there (close_stuck f t there) in
          ground (arith, stuck, closed, h')
    ]

new_size_ready :
    (line old : Bytes) (f : FileStream)
    → f.opened ≡ true
    → f.good ≡ true
    → f.disk.file ≡ some old
    → new_size line f ≡ length (old ++ line) + 12
unfolding new_size
new_size_ready line old f o g at = ground (arith, at, length-append {0} old line)

put_rotated :
    (line old : Bytes) (f : FileStream)
    → f.opened ≡ true
    → f.good ≡ true
    → f.disk.file ≡ some old
    → (put line (rotate f).1).good ≡ true
    → ((put line (rotate f).1).disk.file ≡ some (codes "<logfile>\n" ++ line))
      × (find (archived f f.disk.now) (put line (rotate f).1).disk.others
          ≡ some (old ++ codes "</logfile>\n"))
put_rotated line old f o g at h = elim (Option-cases (rotate f).1.disk.file) [
  | inl free ↦ ground (arith, put_nowhere line (rotate f).1 free)
  | inr (t, there) ↦
      let (stored, opened, good, others) = put_good line t (rotate f).1 there h in
      let (first, kept) = rotate_good old f o g at good opened in
      (
        stored ∙ ap (map (λ u. u ++ line)) (sym there ∙ first),
        ap (find (archived f f.disk.now)) others ∙ kept,
      )
]

not_above : (a b : ℕ) → ltb a b ≡ false → b ≤ a
not_above a b h = ground arith

-- If the stream is open and good, and do_write's last part reports success, then either the line is
-- appended and the file, with the 12 bytes of its end, stays within m_maxsize, or the line is the
-- first of a new file, and what the file held before is kept, with its end, under the name of the
-- moment.
pub put_line-kept :
    (line old : Bytes) (f : FileStream)
    → f.opened ≡ true
    → f.good ≡ true
    → f.disk.file ≡ some old
    → (put_line line f).0 ≡ true
    → (((put_line line f).1.disk.file ≡ some (old ++ line))
        × (length (old ++ line) + 12 ≤ f.m_maxsize))
      ⊎ (((put_line line f).1.disk.file ≡ some (codes "<logfile>\n" ++ line))
          × (find (archived f f.disk.now) (put_line line f).1.disk.others
              ≡ some (old ++ codes "</logfile>\n")))
unfolding put_line
put_line-kept line old f o g at h =
    let size = new_size_ready line old f o g at in
    elim (Bool-cases (ltb f.m_maxsize (new_size line f))) [
      | inl full ↦
          let same : (make_room (ltb f.m_maxsize (new_size line f)) f) ≡ (rotate f).1 =
            ap (λ b. make_room b f) full in
          inr
            (rw same (put_rotated line old f o g at (subst (λ u. (put line u).good ≡ true) same h)))
      | inr fits ↦
          let same : (make_room (ltb f.m_maxsize (new_size line f)) f) ≡ f =
            ap (λ b. make_room b f) fits in
          let (stored, _, _, _) =
            put_good line old f at (subst (λ u. (put line u).good ≡ true) same h) in
          inl (rw same stored, omega (arith, size, not_above f.m_maxsize (new_size line f) fits))
    ]

-- A file that has been closed is not opened again: while m_isopen is set, a line that is not above
-- m_maxsize by itself fails, whatever state the disk is in; the disk stays as it is, the file stays
-- closed, and m_isopen stays set.
pub closed_stays_closed :
    (line : Bytes) (f : FileStream)
    → f.m_isopen ≡ true
    → f.opened ≡ false
    → length line + 12 ≤ f.m_maxsize
    → let (written, after) = put_line line (ensure_open f).1 in
      (written ≡ false) × (after.m_isopen ≡ true) × (after.opened ≡ false) × (after.disk ≡ f.disk)
unfolding put_line new_size make_room put ensure_open
closed_stays_closed line f is_open closed h = elim (Option-cases f.disk.file) [
  | inl free ↦ ground (arith, free)
  | inr (t, there) ↦ ground (arith, there)
]
