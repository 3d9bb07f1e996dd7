-- ===== src/System.antt =====
-- The log thread and the retry threads together (log_thread.cpp, retry_thread.cpp): a schedule of
-- events that the log thread hands out and of turns of the retry threads. A turn is one step.
pub mod Kept
pub mod Severe
pub mod Interleave
pub mod Run
use epics_logfile.Base.{ℕ, Bool, List, [], ◌∷◌, Option, none, some, Bytes}
use epics_logfile.Base.Map.{nat_key, find, assign}
use epics_logfile.Event.{LogEvent}
use epics_logfile.OutputStream.{StreamClass, OutputStream}
use epics_logfile.Retry
use epics_logfile.Retry.{Queue}
use epics_logfile.LogThread.{LogThread, RetryPointer, store, log}

-- A log event taken from the queue, or a turn at time `now` of the retry thread of a stream.
pub data Action : Type 0 where
  logs : LogEvent → Action
  retries : ℕ → ℕ → Action

module _ {S : Type 0} (cls : StreamClass S) (can_start : Bool) (strftime : ℕ → Bytes) where
  -- The turn of the retry thread with the given queue, on the stream that it holds.
  retry_with : ℕ → ℕ → Queue → OutputStream S → LogThread S → LogThread S
  retry_with a now q o t =
      let (kept, o', more) = Retry.turn cls now q o in
      record t { heap = store t.heap a (some o'); retry_map = assign a (some kept) t.retry_map }

  -- No thread at `a`, or one whose queue is empty, as it has ended: nothing happens. A thread whose
  -- stream is deleted writes the front of its queue to it: a fault.
  unfoldable pub retry : ℕ → ℕ → LogThread S → Option (LogThread S)
  unfolding retry_with
  retry a now t = elim (find a t.retry_map) [
    | none ↦ some t
    | some none ↦ some t
    | some (some []) ↦ some t
    | some (some (e ∷ q)) ↦ elim (t.heap a) [
      | none ↦ none
      | some o ↦ some (retry_with a now (e ∷ q) o t)
    ]
  ]

  act : Action → LogThread S → Option (LogThread S)
  unfolding retry
  act (logs e) t = log cls can_start strftime e t
  act (retries a now) t = retry a now t

  infixl 5 ◌>>=◌
  abbrev ◌>>=◌ : Option (LogThread S) → (LogThread S → Option (LogThread S)) → Option (LogThread S)
  none >>= f = none
  some t >>= f = f t

  unfoldable pub act_all : List Action → LogThread S → Option (LogThread S)
  unfolding act
  act_all [] t = some t
  act_all (a ∷ rest) t = act a t >>= act_all rest
