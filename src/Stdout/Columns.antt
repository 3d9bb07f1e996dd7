-- ===== src/Stdout/Columns.antt =====
-- The lines of do_write, and what a stream that has failed does to them.
use epics_logfile.Base.{
  ℕ, zero, suc, ◌+◌, ◌-◌, ◌≤◌, ◌≡◌, refl, sym, ap, ◌∙◌, Bool, true, false, [], ◌∷◌, ◌++◌,
  append_assoc, Bytes, codes, length, take, replicate, ok, ◌>>=◌, All, arith, length-append,
}
use epics_logfile.Base.Decimal.{pad_right}
use epics_logfile.Level.{
  Level, finest, finer, fine, config, info, warning, severe, name_at, level_name, level_names,
  level_eq, level_lt, severity,
}
use epics_logfile.Event.{LogEvent}
use epics_logfile.OutputStream.{OutputStream, write, clears}
use epics_logfile.Retry.{Queue, active, expire, drain, turn}
use epics_logfile.Stdout.{
  Colors, s_colors, s_colors256dark, s_colors256light, escape, color_at, table, Stdout, resize,
  line, put, put_line, caught, do_write, stdout_class,
}

color_at-ok : (c : Colors) (l : Level) → (s : Bytes) × (color_at c l ≡ ok s)
unfolding color_at table name_at level_eq level_lt severity
color_at-ok s_colors finest = (_, refl)
color_at-ok s_colors finer = (_, refl)
color_at-ok s_colors fine = (_, refl)
color_at-ok s_colors config = (_, refl)
color_at-ok s_colors info = (_, refl)
color_at-ok s_colors warning = (_, refl)
color_at-ok s_colors severe = (_, refl)
color_at-ok s_colors256dark finest = (_, refl)
color_at-ok s_colors256dark finer = (_, refl)
color_at-ok s_colors256dark fine = (_, refl)
color_at-ok s_colors256dark config = (_, refl)
color_at-ok s_colors256dark info = (_, refl)
color_at-ok s_colors256dark warning = (_, refl)
color_at-ok s_colors256dark severe = (_, refl)
color_at-ok s_colors256light finest = (_, refl)
color_at-ok s_colors256light finer = (_, refl)
color_at-ok s_colors256light fine = (_, refl)
color_at-ok s_colors256light config = (_, refl)
color_at-ok s_colors256light info = (_, refl)
color_at-ok s_colors256light warning = (_, refl)
color_at-ok s_colors256light severe = (_, refl)

level_name-ok : (l : Level) → (s : Bytes) × (level_name l ≡ ok s) × (length s ≤ 7)
unfolding level_name name_at level_names level_eq level_lt severity
level_name-ok finest = (codes "finest", refl, omega arith)
level_name-ok finer = (codes "finer", refl, omega arith)
level_name-ok fine = (codes "fine", refl, omega arith)
level_name-ok config = (codes "config", refl, omega arith)
level_name-ok info = (codes "info", refl, omega arith)
level_name-ok warning = (codes "warning", refl, omega arith)
level_name-ok severe = (codes "severe", refl, omega arith)

length-replicate : (n c : ℕ) → length (replicate n c) ≡ n
length-replicate zero c = refl
length-replicate (suc n) c = ap suc (length-replicate n c)

length-take : (n : ℕ) (s : Bytes) → length (take n s) + (n - length s) ≡ n
length-take zero s = omega arith
length-take (suc n) [] = omega arith
length-take (suc n) (c ∷ s) = omega (arith, length-take n s)

length-resize : (n c : ℕ) (s : Bytes) → length (resize n c s) ≡ n
unfolding resize
length-resize n c s =
    length-append (take n s) (replicate (n - length s) c)
    ∙ rw (length-replicate (n - length s) c) (length-take n s)

length-pad_right : (n c : ℕ) (s : Bytes) → length s ≤ n → length (pad_right c n s) ≡ n
length-pad_right n c s h =
    length-append s (replicate (n - length s) c)
    ∙ rw (length-replicate (n - length s) c) (omega (arith, h))

abbrev heading : Bytes → Bytes → Bytes → Bytes → Bytes
heading color time name subsystem =
    color
    ++ (time
        ++ (codes " ["
            ++ (pad_right b' ' 7 name ++ (codes "] [" ++ (resize 8 b' ' subsystem ++ codes "] ")))))

length-heading :
    (color time name subsystem : Bytes)
    → length name ≤ 7
    → length (heading color time name subsystem) ≡ length color + length time + 22
length-heading color time name subsystem h =
    rw
      (
        length-append color (
            time
            ++ (codes " ["
                ++ (pad_right b' ' 7 name
                    ++ (codes "] [" ++ (resize 8 b' ' subsystem ++ codes "] "))))),
        length-append time (
            codes " ["
            ++ (pad_right b' ' 7 name ++ (codes "] [" ++ (resize 8 b' ' subsystem ++ codes "] ")))),
        length-append (pad_right b' ' 7 name)
            (codes "] [" ++ (resize 8 b' ' subsystem ++ codes "] ")),
        length-append (resize 8 b' ' subsystem) (codes "] "),
        length-pad_right 7 b' ' name h,
        length-resize 8 b' ' subsystem,
      )
      (omega arith)

heading-append :
    (color time name subsystem m : Bytes)
    → heading color time name subsystem ++ m
      ≡ color
        ++ (time
            ++ (codes " ["
                ++ (pad_right b' ' 7 name
                    ++ (codes "] [" ++ (resize 8 b' ' subsystem ++ (codes "] " ++ m))))))
heading-append color time name subsystem m = simp (append_assoc)

-- do_write never throws, and its lines are in columns: the message stands 22 bytes behind the
-- colour and the time, whatever the level and the subsystem.
pub line_columns :
    (c : Colors) (e : LogEvent)
    → (color : Bytes) × (before : Bytes) × (color_at c e.level ≡ ok color)
      × (line c e ≡ ok (before ++ (e.message ++ (escape (codes "0") ++ codes "\n"))))
      × (length before ≡ length color + length e.time_string + 22)
unfolding line
line_columns c e =
    let (color, ec) = color_at-ok c e.level in
    let (name, en, short) = level_name-ok e.level in
    (
      color,
      heading color e.time_string name e.subsystem_string,
      ec,
      rw (ec, en) (ap ok (sym (heading-append color e.time_string name e.subsystem_string _))),
      length-heading color e.time_string name e.subsystem_string short,
    )

-- A sink whose stream has failed reports failure, and stays as it is.
do_write-failed :
    (takes : Bytes → Bytes → Bool) (e : LogEvent) (s : Stdout)
    → s.m_stream.good ≡ false
    → (stdout_class takes).do_write e s ≡ (false, s)
unfolding do_write stdout_class put put_line
do_write-failed takes e s h =
    let (color, before, ec, el, n) = line_columns s.m_colors e in
    ap (λ r. caught s (r >>= λ msg. ok (put_line takes msg s))) el ∙ rw h refl

drain-failed :
    (takes : Bytes → Bytes → Bool) (q : Queue) (o : OutputStream Stdout)
    → o.sink.m_stream.good ≡ false
    → All (λ e. clears o.min_log_level e ≡ true) q
    → drain (stdout_class takes) q o ≡ (q, o)
unfolding drain write clears
drain-failed takes [] o h a = refl
drain-failed takes (e ∷ q) o h a = ground (arith, do_write-failed takes e o.sink h, a.0)

-- Where the std::ostream has failed, the retry thread delivers nothing of a queue that the
-- minimum lets through: each turn leaves the stream as it is, and what has not expired waits on.
pub turn-failed :
    (takes : Bytes → Bytes → Bool) (now : ℕ) (q : Queue) (o : OutputStream Stdout)
    → o.sink.m_stream.good ≡ false
    → All (λ e. clears o.min_log_level e ≡ true) q
    → turn (stdout_class takes) now q o ≡ ((expire now q).0, o, active (expire now q).0)
unfolding turn
turn-failed takes now q o h a = rw (drain-failed takes q o h a) refl
