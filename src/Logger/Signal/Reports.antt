-- ===== src/Logger/Signal/Reports.antt =====
-- What signal_handler adds to the queue of the log thread.
use epics_logfile.Base.{ℕ, suc, ◌≡◌, List, [], ◌∷◌, ◌++◌, some, map, Bytes, ◌==◌, if◌then◌else◌}
use epics_logfile.Base.Map.{nat_key, find}
use epics_logfile.Level.{Level, severe}
use epics_logfile.Event.{LogEvent}
use epics_logfile.LogThread.{LogThread}
use epics_logfile.LineSplitter.Lines.{all_lines, concat}
use epics_logfile.Registry.{SubsystemInfo}
use epics_logfile.Logger.{Logger}
use epics_logfile.Logger.Laws.{event_of}
use epics_logfile.Logger.Signal.{Gdb, no_pipe, parent, signal_text, Progress}

-- What the backtrace adds to the reports, each with the name of its function.
abbrev pub backtrace_texts : Bytes → Bytes → Gdb → List Bytes → List (Bytes × Bytes)
backtrace_texts function in_lambda no_pipe symbols = map (λ text. (function, text)) symbols
backtrace_texts function in_lambda (parent blocks status) symbols =
    map (λ text. (in_lambda, text)) (all_lines (concat blocks))
    ++ (if status == 0 then [] else map (λ text. (function, text)) symbols)

module _ (clock : ℕ → ℕ) (log_id : ℕ) (queued : ℕ → List LogEvent) where
  -- The events that SuS_LOG makes of texts, each behind what other threads queue before it.
  unfoldable pub severe_events : ℕ → SubsystemInfo → List (Bytes × Bytes) → List LogEvent
  severe_events i info [] = []
  severe_events i info ((name, text) ∷ texts) =
      queued i ++ event_of (clock i) severe log_id text name info ∷ severe_events (suc i) info texts

-- What other threads do to the queue of the log thread: they add events at its end, `queued`, and the
-- log thread takes events from its front.
abbrev pub IsShared :
    {S : Type 0} → (ℕ → LogThread S → LogThread S × List LogEvent) → (ℕ → List LogEvent) → Type 0
IsShared {S} meanwhile queued =
    (i : ℕ) (t : LogThread S) → (meanwhile i t).1 ++ (meanwhile i t).0.events ≡ t.events ++ queued i

module _ {S : Type 0} (minimum : Level) (clock : ℕ → ℕ) (log_id : ℕ) (function in_lambda : Bytes)
    (meanwhile : ℕ → LogThread S → LogThread S × List LogEvent) (queued : ℕ → List LogEvent)
    (shared : IsShared meanwhile queued) where
  -- A running logger, with this subsystem, and the events that were taken or are still queued.
  abbrev Running : Progress S → SubsystemInfo → List LogEvent → Type 0
  Running (l, taken) info es =
      (find log_id l.registry.subsystems ≡ some info)
      × (t : LogThread S) × (l.thread ≡ some t)
      × (taken ++ t.events ≡ es)

  -- What signal_handler reports.
  abbrev pub reports : ℕ → Gdb → List Bytes → List (Bytes × Bytes)
  reports sig gdb symbols =
      (function, signal_text sig) ∷ backtrace_texts function in_lambda gdb symbols
