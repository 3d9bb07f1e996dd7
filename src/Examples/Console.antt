-- ===== src/Examples/Console.antt =====
-- Standard output, the Qt list, the shell's commands, and the parts of the logger around them.
use epics_logfile.Base.{
  ◌==◌, ℕ, ◌-◌, ◌^◌, ◌≡◌, ◌⊎◌, ◌||◌, refl, Bool, true, List, [], ◌∷◌, ◌++◌, none, some, codes,
  length, ltb, ok, throw, out_of_range, arith, if◌then◌else◌, bytes_eq,
}
use epics_logfile.Base.Decimal.{decimal}
use epics_logfile.Base.Map.{find, nat_key, bytes_key}
use epics_logfile.Level.{fine, info}
use epics_logfile.Event.{LogEvent}
use epics_logfile.LogThread.{LogThread, store}
use epics_logfile.Stdout.{init_colors}
use epics_logfile.Stdout.Environment.{colors_for, init_colors-decimal}
use epics_logfile.LogList
use epics_logfile.LogList.{Signal, Expired, is_ahead}
use epics_logfile.LogList.Expiry.{debug_last, has_debug, others, expire_lem}
use epics_logfile.Logger.{Logger}
use epics_logfile.Logger.Signal.{Gdb, parent}
use epics_logfile.Epics.Commands.{Sets, NoStream, NoLevel, logfile_set_min_level_lem}
use epics_logfile.Examples.{event, stream, thread}

-- COLORFGBG=0;15
init_colors-decimal_example :
    init_colors (some (codes "xterm" ++ codes "-256color")) (some (decimal 0 ++ b';' ∷ decimal 15))
    ≡ (if ltb (2 ^ 31 - 1) 0 || ltb (2 ^ 31 - 1) 15
        then throw (out_of_range (codes "stoi"))
        else ok (colors_for 15))
init_colors-decimal_example = init_colors-decimal (codes "xterm") 0 15

abbrev shown : List LogEvent
shown = event info 5 ∷ event fine 6 ∷ []

expire_lem_list_example : LogList.expire 1000 shown ≡ (
    if debug_last shown
    then Expired.returned
        (if has_debug shown
          then some (Signal.remove_rows (length (others shown)) (length shown - 1))
          else none)
        (others shown)
    else Expired.invalid_iterator)
unfolding is_ahead
expire_lem_list_example = expire_lem 1000 shown (refl, (refl, tt))

-- A logger with its own subsystem.
abbrev logger : Logger (Bool × List LogEvent)
logger = record {
  registry = record {
    subsystems = (0, record { name = codes "logger"; min_level = info }) ∷ [];
    next_free_subsystem_id = 1;
  };
  thread = some (thread true []);
}

abbrev gdb : Gdb
gdb = parent (codes "#0 ma" ∷ codes "in\n#1 x" ∷ []) 0

-- The log thread takes the queue while gdb starts, and another thread queues an event.
abbrev meanwhile :
    ℕ → LogThread (Bool × List LogEvent) → LogThread (Bool × List LogEvent) × List LogEvent
meanwhile i t = if i == 1 then (record t { events = event fine 7 ∷ [] }, t.events) else (t, [])

abbrev queued : ℕ → List LogEvent
queued i = if i == 1 then event fine 7 ∷ [] else []

live_one :
    (a : ℕ)
    → some 1 ≡ some a
    → store {S = Bool × List LogEvent} (λ b. none) 1 (some (stream true)) a ≡ some (stream true)
live_one a h = ground arith

logfile_set_min_level_lem_example :
    Sets (codes "stdout") (codes "severe") logger (thread true [])
    ⊎ (NoStream (codes "stdout") (codes "severe") logger (thread true [])
        ⊎ NoLevel (codes "stdout") (codes "severe") logger (thread true []))
unfolding find bytes_eq
logfile_set_min_level_lem_example =
    logfile_set_min_level_lem (codes "stdout") (codes "severe") logger (thread true []) refl
      (λ a h. (stream true, live_one a h))
