-- ===== src/Examples.antt =====
-- Tests, and the theorems at concrete inputs: the data that they share.
mod Delivery
mod Sinks
mod Texts
mod Network
mod Setup
mod Threads
mod Console
mod Server
mod Exchange
mod Shutdown
use epics_logfile.Base.{ℕ, Bool, true, List, [], ◌∷◌, none, some, Bytes, codes}
use epics_logfile.Level.{Level, fine, info, severe}
use epics_logfile.Event.{LogEvent}
use epics_logfile.OutputStream.{StreamClass, OutputStream}
use epics_logfile.LogThread.{LogThread, store}

abbrev pub event : Level → ℕ → LogEvent
event l t = record {
  level = l;
  subsystem = 0;
  message = codes "hi";
  time = t;
  function = codes "main";
  subsystem_string = codes "app";
  time_string = [];
}

-- A sink that works while its state is `true`.
abbrev pub switch : StreamClass Bool
switch = record {
  do_write = λ e s. (s, s);
  name = λ s. codes "switch";
  retry_time = λ s. 30;
  destructor = λ s. true;
}

abbrev pub no_date : ℕ → Bytes
no_date t = codes "now"

-- A recording stream that lets `fine` and above through.
abbrev pub stream : Bool → OutputStream (Bool × List LogEvent)
stream works = record { min_log_level = fine; sink = (works, []) }

-- One stream, at address 1.
abbrev pub thread : Bool → List LogEvent → LogThread (Bool × List LogEvent)
thread works es = record {
  heap = store (λ b. none) 1 (some (stream works));
  streams = (codes "stdout", 1) ∷ [];
  events = es;
  do_terminate = true;
  max_event_queue_size = 0;
  retry_map = [];
}
