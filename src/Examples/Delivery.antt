-- ===== src/Examples/Delivery.antt =====
-- Log thread, retry threads and their schedule.
use epics_logfile.Base.{
  ◌≡◌, refl, Bool, true, false, not, List, [], ◌∷◌, ◌++◌, some, keep_if, arith,
}
use epics_logfile.Base.Map.{find, nat_key}
use epics_logfile.Level.{fine, info, severe}
use epics_logfile.Event.{LogEvent}
use epics_logfile.OutputStream.{recorded, delivered, clears}
use epics_logfile.Retry
use epics_logfile.Retry.{Queue, expire, is_expired, drain}
use epics_logfile.Retry.Laws.{turn_conserves}
use epics_logfile.LogThread.{LogThread, log_all, turn}
use epics_logfile.LogThread.History.{occurrences, Logged, log_all-Logged}
use epics_logfile.System.{Action, logs, retries, act_all}
use epics_logfile.System.Severe.{Survive, IsWellFormed}
use epics_logfile.System.Severe.Schedule.{act_all-severe, logged}
use epics_logfile.Examples.{event, switch, no_date, stream, thread}

abbrev schedule : List Action
schedule = logs (event severe 5) ∷ retries 1 1000 ∷ []

thread-IsWellFormed : IsWellFormed switch (thread false [])
unfolding find
thread-IsWellFormed = record { live = ((stream false, refl), tt); retry_live = λ a q h. cc }

act_all-severe_example :
    (t' : LogThread (Bool × List LogEvent)) × (act_all
        (recorded switch)
        true
        no_date
        schedule
        (thread false [])
      ≡ some t')
    × Survive switch (logged switch schedule) no_date 1 (stream false) (thread false []) t'
act_all-severe_example =
    act_all-severe switch no_date schedule 1 (stream false) (thread false []) (omega arith, tt)
      thread-IsWellFormed (unfold occurrences in refl) refl

log_all-Logged_example :
    (t' : LogThread (Bool × List LogEvent)) × (log_all
        (recorded switch)
        true
        no_date
        (event info 5 ∷ event severe 6 ∷ [])
        (thread false [])
      ≡ some t')
    × Logged switch no_date
        (event info 5 ∷ event severe 6 ∷ [])
        1
        (stream false)
        (thread false [])
        t'
unfolding occurrences
log_all-Logged_example =
    log_all-Logged switch no_date (event info 5 ∷ event severe 6 ∷ []) 1 (stream false)
      (thread false []) ((stream false, refl), tt) refl refl

abbrev two_retries : LogThread (Bool × List LogEvent)
two_retries = record (thread true []) {
  retry_map = (1, some []) ∷ (2, some (event info 5 ∷ [])) ∷ [];
}

abbrev waiting : Queue
waiting = event info 5 ∷ event severe 6 ∷ []

turn_conserves_example :
    let (kept, o', more) = Retry.turn (recorded switch) 1000 waiting (stream false) in
    (written : Queue) × (unwritten : Queue) × (waiting ≡ written ++ unwritten)
    × (delivered o' ≡ delivered (stream false) ++ keep_if (clears fine) written)
    × (kept ≡ keep_if (λ e. not (is_expired 1000 e)) unwritten)
    × (o'.min_log_level ≡ fine)
turn_conserves_example = turn_conserves switch 1000 waiting (stream false)
