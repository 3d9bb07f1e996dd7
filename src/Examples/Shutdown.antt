-- ===== src/Examples/Shutdown.antt =====
-- The run of the log thread to its end.
use epics_logfile.Base.{
  ℕ, ◌≡◌, ◌≢◌, refl, some, true, false, List, [], ◌∷◌, ◌++◌, arith, ◌==◌, ◌+◌, codes, none,
}
use epics_logfile.Base.Map.{find, nat_key, emplace, place, assign, erase}
use epics_logfile.Level.{level_lt, severity, fine, severe}
use epics_logfile.Event.{LogEvent}
use epics_logfile.OutputStream.{StreamClass, OutputStream, recorded, delivered, write}
use epics_logfile.Retry
use epics_logfile.Retry.{Queue, active, enqueue, expire, is_expired, drain}
use epics_logfile.LogThread.{
  LogThread, finished, store, log, log_all, deliver_all, deliver, write_now, push_all, push,
  try_finish, sweep, conclude, is_idle, turn, terminate,
}
use epics_logfile.LogThread.Handed.{history}
use epics_logfile.LogThread.History.{stamped, occurrences}
use epics_logfile.System.{retry}
use epics_logfile.System.Kept.{severe_only}
use epics_logfile.System.Severe.{IsWellFormed}
use epics_logfile.System.Run.{Round, retry_all, do_run, accepted}
use epics_logfile.System.Run.Account.{through}
use epics_logfile.System.Run.Shutdown.{do_run-finished}
use epics_logfile.System.Run.Ends.{do_run_terminates}
use epics_logfile.LogThread.Finish.{no_arrivals}
use epics_logfile.Registry.{no_subsystems}
use epics_logfile.Logger.Destroy.{Deletes, destroy_logger, destroy_logger_lem}
use epics_logfile.Examples.{event, no_date}

-- A sink whose first write fails.
abbrev flaky : StreamClass ℕ
flaky = record {
  do_write = λ e n. (n == 0, 0);
  name = λ n. codes "flaky";
  retry_time = λ n. 30;
  destructor = λ n. true;
}

abbrev unwritten : ℕ → OutputStream (ℕ × List LogEvent)
unwritten n = record { min_log_level = fine; sink = (n, []) }

-- The end is asked for, and an event waits for the sink.
abbrev stuck : LogThread (ℕ × List LogEvent)
stuck = record {
  heap = store (λ a. none) 1 (some (unwritten 1));
  streams = (codes "flaky", 1) ∷ [];
  events = event severe 5 ∷ [];
  do_terminate = true;
  max_event_queue_size = 1;
  retry_map = [];
}

-- Another event comes in while the first turn runs; the retry thread writes both.
abbrev rounds : List Round
rounds =
    record {
      arrivals = record { during_log = event severe 6 ∷ []; during_sweep = [] };
      queued = [];
      retries = [];
    }
    ∷ record {
      arrivals = record { during_log = []; during_sweep = [] };
      queued = [];
      retries = (1, 1000) ∷ [];
    }
    ∷ record { arrivals = record { during_log = []; during_sweep = [] }; queued = []; retries = [] }
    ∷ []

abbrev over : LogThread (ℕ × List LogEvent)
over = record stuck {
  heap = store (store stuck.heap 1 (some (unwritten 0))) 1 (
      some (record (unwritten 0) {
        sink = (0, stamped no_date (event severe 5) ∷ stamped no_date (event severe 6) ∷ []);
      }));
  events = [];
  retry_map = (1, none) ∷ [];
}

do_run_ends : do_run (recorded flaky) true no_date rounds stuck ≡ finished over
unfolding do_run retry_all retry turn log_all log deliver_all deliver write_now write try_finish
    sweep conclude push_all push is_idle stamped find emplace place assign erase level_lt severity
    active enqueue Retry.turn expire is_expired drain
do_run_ends = refl

stuck-IsWellFormed : IsWellFormed flaky stuck
unfolding find
stuck-IsWellFormed = record { live = ((unwritten 1, refl), tt); retry_live = λ a q h. cc }

do_run-finished_example :
    (over.events ≡ [])
    × (o' : OutputStream (ℕ × List LogEvent)) × (over.heap 1 ≡ some o')
    × (severe_only (delivered o')
        ≡ severe_only (
            history 1 stuck
            ++ through no_date fine
                (event severe 5 ∷ accepted (recorded flaky) true no_date rounds stuck)))
do_run-finished_example =
    do_run-finished flaky no_date 1 rounds (unwritten 1) stuck over
      (tt, ((omega arith, tt), (tt, tt))) stuck-IsWellFormed (unfold occurrences in refl) refl
      do_run_ends

-- A sink that counts the events.
abbrev counter : StreamClass ℕ
counter = record {
  do_write = λ e n. (true, n + 1);
  name = λ n. codes "n";
  retry_time = λ n. 30;
  destructor = λ n. true;
}

do_run_terminates_example :
    (t' : LogThread (ℕ × List LogEvent)) × (do_run
        (recorded counter)
        true
        no_date
        (rounds ++ record { arrivals = no_arrivals; queued = []; retries = [] } ∷ [])
        stuck
      ≡ finished t')
do_run_terminates_example =
    do_run_terminates counter no_date (λ e n. refl) rounds [] [] stuck
      (record { live = ((unwritten 1, refl), tt); no_retries = refl; ending = refl })

-- The logger of that log thread, before the end was asked for.
abbrev in_use : LogThread (ℕ × List LogEvent)
in_use = record stuck { do_terminate = false }

in_use-IsWellFormed : IsWellFormed flaky in_use
unfolding find
in_use-IsWellFormed = record { live = ((unwritten 1, refl), tt); retry_live = λ a q h. cc }

destroy_logger_lem_example :
    ((q : Queue) → find 1 over.retry_map ≢ some (some q))
    × ((o' : OutputStream (ℕ × List LogEvent)) × (over.heap 1 ≡ some o')
        × (severe_only (delivered o')
            ≡ severe_only (
                history 1 in_use
                ++ through no_date fine (
                    event severe 5
                    ∷ accepted (recorded flaky) true no_date rounds (terminate in_use)))))
    × Deletes flaky no_date (1 ∷ []) over (
        destroy_logger
          (recorded flaky)
          true
          no_date
          rounds
          (record { registry = no_subsystems; thread = some in_use }))
destroy_logger_lem_example =
    destroy_logger_lem flaky no_date rounds
      (record { registry = no_subsystems; thread = some in_use }) in_use over 1 (unwritten 1)
      (tt, ((omega arith, tt), (tt, tt))) in_use-IsWellFormed
      (λ a. unfold occurrences in ground arith) (unfold occurrences in refl) refl refl
      (unfold terminate in do_run_ends)
