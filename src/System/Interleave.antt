-- ===== src/System/Interleave.antt =====
-- The log thread and the retry thread of one stream (log_thread.cpp, retry_thread.cpp), each call
-- that takes a mutex or writes to the stream a step of its own. The stream's minimum level is not
-- changed meanwhile. `logged` and `lost` are not in the code: they list the events that the log
-- thread has begun to hand out, and those that it has given up, as no retry thread could be started.
pub mod Waiting
pub mod Conserve
pub mod Steps
pub mod Stranded
use epics_logfile.Base.{ℕ, ◌^◌, ◌<◌, ◌≡◌, ◌≢◌, true, false, List, [], ◌∷◌, ◌++◌}
use epics_logfile.Event.{LogEvent}
use epics_logfile.OutputStream.{StreamClass, OutputStream, write}
use epics_logfile.Retry.{Queue, active, enqueue, expire}

-- Where log_thread::log stands for this stream: before the next event, behind an active() that
-- said true, in the join behind one that said false, before the write, behind a write that failed,
-- and behind the start of a retry thread.
pub data LogPc : Type 0 where
  idle : LogPc
  checked joining writing failed started : LogEvent → LogPc

-- Where retry_thread::run stands: no thread in the map, in the sleep, before the front is read,
-- before the write of the front, behind a write that succeeded, before the expiry, before the last
-- test, and ended.
pub data RetryPc : Type 0 where
  absent sleeping draining expiring checking stopped : RetryPc
  trying written : LogEvent → RetryPc

pub record State (S : Type 0) : Type 0 where
  pub log_pc : LogPc
  pub retry_pc : RetryPc
  pub queue : Queue
  pub stream : OutputStream S
  pub logged : List LogEvent
  pub lost : List LogEvent

-- A step of one of the two threads.
pub data Step {S : Type 0} (cls : StreamClass S) (s : State S) : State S → Type 0 where
  -- log_thread::log finds no retry thread, an active one, or one that is not.
  find_none :
      (e : LogEvent)
      → s.log_pc ≡ LogPc.idle
      → s.retry_pc ≡ RetryPc.absent
      → Step cls s (record s { log_pc = LogPc.writing e; logged = s.logged ++ e ∷ [] })
  find_active :
      (e : LogEvent)
      → s.log_pc ≡ LogPc.idle
      → s.retry_pc ≢ RetryPc.absent
      → active s.queue ≡ true
      → Step cls s (record s { log_pc = LogPc.checked e; logged = s.logged ++ e ∷ [] })
  find_quiet :
      (e : LogEvent)
      → s.log_pc ≡ LogPc.idle
      → s.retry_pc ≢ RetryPc.absent
      → active s.queue ≡ false
      → Step cls s (record s { log_pc = LogPc.joining e; logged = s.logged ++ e ∷ [] })
  put :
      {e : LogEvent}
      → s.log_pc ≡ LogPc.checked e
      → Step cls s (record s { log_pc = LogPc.idle; queue = enqueue e s.queue })
  join :
      {e : LogEvent}
      → s.log_pc ≡ LogPc.joining e
      → s.retry_pc ≡ RetryPc.stopped
      → Step cls s (record s { log_pc = LogPc.writing e; retry_pc = RetryPc.absent; queue = [] })
  log_writes :
      {e : LogEvent}
      → s.log_pc ≡ LogPc.writing e
      → (write cls e s.stream).0 ≡ true
      → Step cls s (record s { log_pc = LogPc.idle; stream = (write cls e s.stream).1 })
  log_fails :
      {e : LogEvent}
      → s.log_pc ≡ LogPc.writing e
      → (write cls e s.stream).0 ≡ false
      → Step cls s (record s { log_pc = LogPc.failed e; stream = (write cls e s.stream).1 })
  start :
      {e : LogEvent}
      → s.log_pc ≡ LogPc.failed e
      → Step cls s (record s { log_pc = LogPc.started e; retry_pc = RetryPc.sleeping; queue = [] })
  -- The handler of std::system_error: there is no thread to take the event.
  start_fails :
      {e : LogEvent}
      → s.log_pc ≡ LogPc.failed e
      → Step cls s (record s { log_pc = LogPc.idle; lost = s.lost ++ e ∷ [] })
  put_first :
      {e : LogEvent}
      → s.log_pc ≡ LogPc.started e
      → Step cls s (record s { log_pc = LogPc.idle; queue = enqueue e s.queue })
  -- retry_thread::run.
  wake : s.retry_pc ≡ RetryPc.sleeping → Step cls s (record s { retry_pc = RetryPc.draining })
  front :
      {e : LogEvent} {q : Queue}
      → s.retry_pc ≡ RetryPc.draining
      → s.queue ≡ e ∷ q
      → Step cls s (record s { retry_pc = RetryPc.trying e })
  drained :
      s.retry_pc ≡ RetryPc.draining
      → s.queue ≡ []
      → Step cls s (record s { retry_pc = RetryPc.expiring })
  retry_writes :
      {e : LogEvent}
      → s.retry_pc ≡ RetryPc.trying e
      → (write cls e s.stream).0 ≡ true
      → Step cls s (record s { retry_pc = RetryPc.written e; stream = (write cls e s.stream).1 })
  retry_fails :
      {e : LogEvent}
      → s.retry_pc ≡ RetryPc.trying e
      → (write cls e s.stream).0 ≡ false
      → Step cls s (record s { retry_pc = RetryPc.expiring; stream = (write cls e s.stream).1 })
  pop :
      {e d : LogEvent} {q : Queue}
      → s.retry_pc ≡ RetryPc.written e
      → s.queue ≡ d ∷ q
      → Step cls s (record s { retry_pc = RetryPc.draining; queue = q })
  expires :
      (now : ℕ)
      → now < 2 ^ 63
      → s.retry_pc ≡ RetryPc.expiring
      → Step cls s (record s { retry_pc = RetryPc.checking; queue = (expire now s.queue).0 })
  again :
      s.retry_pc ≡ RetryPc.checking
      → active s.queue ≡ true
      → Step cls s (record s { retry_pc = RetryPc.sleeping })
  stop :
      s.retry_pc ≡ RetryPc.checking
      → active s.queue ≡ false
      → Step cls s (record s { retry_pc = RetryPc.stopped })

-- The log thread before its first event for the stream.
abbrev pub init : {S : Type 0} → OutputStream S → State S
init o = record {
  log_pc = LogPc.idle;
  retry_pc = RetryPc.absent;
  queue = [];
  stream = o;
  logged = [];
  lost = [];
}

pub data Reach {S : Type 0} (cls : StreamClass S) (s : State S) : State S → Type 0 where
  here : Reach cls s s
  next : {t u : State S} → Reach cls s t → Step cls t u → Reach cls s u
