-- ===== src/Examples/Setup.antt =====
-- Subsystems, streams and levels.
use epics_logfile.Base.{
  ℕ, ◌==◌, false, ◌≡◌, ◌⊎◌, refl, Bool, true, false, List, [], ◌∷◌, none, some, Bytes, codes, ok,
  ◌++◌, bytes_eq, arith,
}
use epics_logfile.Base.Map.{find, nat_key, bytes_key}
use epics_logfile.Level.{fine, info, severe, level_by_name, level_lt}
use epics_logfile.Registry.{
  Registry, no_subsystems, id_or_throw, add_subsystem, register_subsystem, find_subsystem,
  find_name,
}
use epics_logfile.Registry.Registrator.{new_registrator, subsystem, set_min_log_level, register_all}
use epics_logfile.Registry.Laws.Registered.{registrator_lem}
use epics_logfile.Registry.Added.{IsValid}
use epics_logfile.Registry.Laws.{register_subsystem-IsValid}
use epics_logfile.LogThread.{LogThread}
use epics_logfile.Logger.{Logger, sus_log, remove_output_stream}
use epics_logfile.Logger.Laws.{event_of, sus_log_lem, remove_output_stream-retry}
use epics_logfile.System.{retry}
use epics_logfile.Examples.{event, stream, thread, switch, no_date}
use epics_logfile.OutputStream.{recorded}
use epics_logfile.Event.{LogEvent}

level_by_name_info : level_by_name (codes "info") ≡ ok info
unfolding level_by_name bytes_eq
level_by_name_info = refl

none-IsValid : IsValid no_subsystems
unfolding find find_name
none-IsValid = record { ids_below = tt; names_apart = λ id i h. cc; ids_named = λ name id h. cc }

-- One subsystem.
abbrev registry : Registry
registry = (register_subsystem fine (codes "app") no_subsystems).0

registry-IsValid : IsValid registry
registry-IsValid =
    register_subsystem-IsValid fine (codes "app") no_subsystems none-IsValid (omega arith)

-- The counter after that.
registry_next : registry.next_free_subsystem_id ≡ 1
unfolding register_subsystem find_subsystem find_name id_or_throw add_subsystem
registry_next = refl

-- Two registrators that come after the one for "net", one of them for a name that is there.
abbrev later : List Bytes
later = codes "tcp" ∷ codes "app" ∷ []

registrator_lem_example :
    let (r1, g) = new_registrator info (codes "net") registry in
    let r2 = (register_all info later r1).0 in
    (new_registrator info (codes "net") r2 ≡ (r2, g))
    × ((other : Bytes) → find_subsystem other r2 ≡ ok (subsystem g) → other ≡ codes "net")
    × (r3 : Registry) × (set_min_log_level severe g r2 ≡ some r3)
    × (find (subsystem g) r3.subsystems ≡ some (record { name = codes "net"; min_level = severe }))
    × ((j : ℕ) → (subsystem g == j) ≡ false → find j r3.subsystems ≡ find j r2.subsystems)
registrator_lem_example =
    registrator_lem info severe (codes "net") later registry registry-IsValid
      (omega (arith, registry_next))

-- The counter of ids has come back to 0.
abbrev wrapped : Registry
wrapped = record {
  subsystems = (0, record { name = codes "app"; min_level = fine }) ∷ [];
  next_free_subsystem_id = 0;
}

abbrev with_retry : LogThread (Bool × List LogEvent)
with_retry = record (thread false []) { retry_map = (1, some (event info 5 ∷ [])) ∷ [] }

remove_output_stream-retry_example :
    (t' : LogThread (Bool × List LogEvent)) × (remove_output_stream
        (recorded switch)
        (codes "stdout")
        with_retry
      ≡ some (t', true))
    × (retry (recorded switch) true no_date 1 1000 t' ≡ none)
unfolding find bytes_eq
remove_output_stream-retry_example =
    remove_output_stream-retry (recorded switch) true no_date 1 1000 (codes "stdout") (stream false)
      (event info 5) [] with_retry refl refl refl refl

abbrev logger : Logger (Bool × List LogEvent)
logger = record { registry = wrapped; thread = some (thread true []) }

sus_log_lem_example :
    ((level_lt severe fine ≡ false)
      × (level_lt severe fine ≡ false)
      × (t' : LogThread (Bool × List LogEvent)) × (sus_log fine 5 severe 0
            (codes "hi")
            (codes "main")
            logger
          ≡ some (record logger { thread = some t' }))
      × (t'.events
          ≡ []
            ++ event_of 5 severe 0
                (codes "hi")
                (codes "main")
                (record { name = codes "app"; min_level = fine })
              ∷ []))
    ⊎ (((level_lt severe fine ≡ true) ⊎ (level_lt severe fine ≡ true))
        × (sus_log fine 5 severe 0 (codes "hi") (codes "main") logger ≡ some logger))
unfolding find find_name
sus_log_lem_example =
    sus_log_lem fine severe 5 0 (codes "hi") (codes "main") logger (thread true [])
      (record { name = codes "app"; min_level = fine }) refl refl
