-- ===== src/System/Run.antt =====
-- do_run (log_thread.cpp): the loop of the log thread up to the thread's end, and what the other
-- threads do between its turns.
pub mod Account
pub mod Steps
pub mod Rounds
pub mod Shutdown
pub mod Ends
use epics_logfile.Base.{
  ℕ, Bool, true, false, ◌&&◌, List, [], ◌∷◌, ◌++◌, Option, none, some, Bytes, if◌then◌else◌,
}
use epics_logfile.Event.{LogEvent}
use epics_logfile.OutputStream.{StreamClass}
use epics_logfile.LogThread.{
  LogThread, Turn, fault, finished, again, Arrivals, push_all, is_idle, log_all, turn,
}
use epics_logfile.System.{retry}

-- A turn of the log thread, and what follows it: the events queued while the thread waits, and the
-- turns of the retry threads, each with the address of its stream and its time. A turn of a retry
-- thread is one step here; Interleave has its single steps.
pub record Round : Type 0 where
  pub arrivals : Arrivals
  pub queued : List LogEvent
  pub retries : List (ℕ × ℕ)

module _ {S : Type 0} (cls : StreamClass S) (can_start : Bool) (strftime : ℕ → Bytes) where
  unfoldable pub retry_all : List (ℕ × ℕ) → LogThread S → Option (LogThread S)
  retry_all [] t = some t
  retry_all ((a, now) ∷ rest) t = elim (retry cls can_start strftime a now t) [
    | none ↦ none
    | some t' ↦ retry_all rest t'
  ]

  -- The loop; `again` is its state when the rounds are over.
  unfoldable pub do_run : List Round → LogThread S → Turn S
  unfolding retry_all
  do_run [] t = again t
  do_run (r ∷ rounds) t = elim (turn cls can_start strftime r.arrivals t) [
    | fault ↦ fault
    | finished t' ↦ finished t'
    | again t' ↦ elim (retry_all r.retries (push_all r.queued t')) [
      | none ↦ fault
      | some t'' ↦ do_run rounds t''
    ]
  ]

  -- The events that come in during a turn: those of its sweep only if it makes one.
  unfoldable pub accepted_turn : Arrivals → LogThread S → List LogEvent
  accepted_turn env t = elim (log_all cls can_start strftime t.events (record t { events = [] })) [
    | none ↦ []
    | some handed ↦
        let t' = push_all env.during_log handed in
        env.during_log ++ (if t'.do_terminate && is_idle t' then env.during_sweep else [])
  ]

  -- The events that come in during the run.
  unfoldable pub accepted : List Round → LogThread S → List LogEvent
  unfolding accepted_turn
  accepted [] t = []
  accepted (r ∷ rounds) t =
      accepted_turn r.arrivals t ++ elim (turn cls can_start strftime r.arrivals t) [
        | fault ↦ []
        | finished t' ↦ []
        | again t' ↦ r.queued ++ elim (retry_all r.retries (push_all r.queued t')) [
          | none ↦ []
          | some t'' ↦ accepted rounds t''
        ]
      ]
