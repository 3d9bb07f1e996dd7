-- ===== src/LogThread.antt =====
-- log_thread.h, log_thread.cpp: the thread that hands each event to every sink. Streams stand on a
-- heap, as the map of streams and the map of retry threads both hold their addresses. A fault is
-- what C++ leaves undefined: a deleted stream, or a null pointer to a retry thread. What the other
-- threads do comes in as arguments: whether std::thread can be started, and the events that are
-- queued meanwhile. The queues of the retry threads are read as they stand at that moment.
pub mod Handed
pub mod Deliver
pub mod History
pub mod Finish
pub mod Teardown
use Prim.Native.Nat.{max}
use epics_logfile.Base.{
  ℕ, Bool, true, false, List, [], ◌∷◌, ◌++◌, Option, none, some, Bytes, codes, length, ◌==◌,
  if◌then◌else◌, map, ◌&&◌,
}
use epics_logfile.Base.Map.{nat_key, find, emplace, erase, assign}
use epics_logfile.Event.{LogEvent, format_time}
use epics_logfile.OutputStream.{StreamClass, OutputStream, write}
use epics_logfile.Retry.{Queue, active, enqueue}

-- A pointer to a retry thread: null, or its queue.
abbrev pub RetryPointer : Type 0
RetryPointer = Option Queue

pub record LogThread (S : Type 0) : Type 0 where
  pub heap : ℕ → Option (OutputStream S)
  pub streams : List (Bytes × ℕ)
  pub events : List LogEvent
  pub do_terminate : Bool
  pub max_event_queue_size : ℕ
  pub retry_map : List (ℕ × RetryPointer)

-- *a = v.
abbrev pub store :
    {S : Type 0}
    → (ℕ → Option (OutputStream S))
    → ℕ
    → Option (OutputStream S)
    → ℕ
    → Option (OutputStream S)
store heap a v b = if a == b then v else heap b

module _ {S : Type 0} where
  -- The constructor: one stream under "stdout", at address `a`.
  unfoldable pub new_thread : ℕ → OutputStream S → LogThread S
  new_thread a stdout = record {
    heap = store (λ b. none) a (some stdout);
    streams = (codes "stdout", a) ∷ [];
    events = [];
    do_terminate = false;
    max_event_queue_size = 0;
    retry_map = [];
  }

  -- log_thread::enqueue.
  unfoldable pub push : LogEvent → LogThread S → LogThread S
  push e t =
      let events = t.events ++ e ∷ [] in
      record t {
        events = events;
        max_event_queue_size = max t.max_event_queue_size (length events);
      }

  -- The part of log_thread::terminate under the mutex.
  unfoldable pub terminate : LogThread S → LogThread S
  terminate t = record t { do_terminate = true }

module _ {S : Type 0} (cls : StreamClass S) (can_start : Bool) where
  -- `if (!j.second->write(_event))` and its body.
  unfoldable pub write_now : LogEvent → ℕ → LogThread S → Option (LogThread S)
  unfolding enqueue
  write_now e a t = elim (t.heap a) [
    | none ↦ none
    | some o ↦
        let (done, o') = write cls e o in
        let t' = record t { heap = store t.heap a (some o') } in
        some (
          if done
          then t'
          else if can_start
          then record t' { retry_map = emplace a (some (enqueue e [])) t'.retry_map }
          else t')
  ]

  -- The body of the loop of log_thread::log, for the stream at `a`.
  unfoldable pub deliver : LogEvent → ℕ → LogThread S → Option (LogThread S)
  unfolding write_now active enqueue
  deliver e a t = elim (find a t.retry_map) [
    | none ↦ write_now e a t
    | some none ↦ write_now e a (record t { retry_map = erase a t.retry_map })
    | some (some q) ↦
        if active q
        then some (record t { retry_map = assign a (some (enqueue e q)) t.retry_map })
        else write_now e a (record t { retry_map = erase a t.retry_map })
  ]

  infixl 5 ◌>>=◌
  abbrev ◌>>=◌ : Option (LogThread S) → (LogThread S → Option (LogThread S)) → Option (LogThread S)
  none >>= f = none
  some t >>= f = f t

  unfoldable pub deliver_all : LogEvent → List ℕ → LogThread S → Option (LogThread S)
  unfolding deliver
  deliver_all e [] t = some t
  deliver_all e (a ∷ rest) t = deliver e a t >>= deliver_all e rest

  -- log_thread::log.
  unfoldable pub log : (ℕ → Bytes) → LogEvent → LogThread S → Option (LogThread S)
  unfolding deliver_all
  log strftime e t =
      deliver_all (record e { time_string = format_time strftime e.time })
        (map (λ s. s.1) t.streams) t

  unfoldable pub log_all : (ℕ → Bytes) → List LogEvent → LogThread S → Option (LogThread S)
  unfolding log
  log_all strftime [] t = some t
  log_all strftime (e ∷ es) t = log strftime e t >>= log_all strftime es

-- The loop over the retry threads when the end is asked for: the map after it, and whether some
-- thread is still active. `i.second->active()` on a null pointer is a fault.
unfoldable pub sweep : List (ℕ × RetryPointer) → Option (List (ℕ × RetryPointer) × Bool)
unfolding active
sweep [] = some ([], false)
sweep ((a, none) ∷ m) = none
sweep ((a, some q) ∷ m) = elim (sweep m) [
  | none ↦ none
  | some (m', still) ↦ some (if active q then ((a, some q) ∷ m', true) else ((a, none) ∷ m', still))
]

-- What one turn of the loop of do_run comes to.
pub data Turn (S : Type 0) : Type 0 where
  fault : Turn S
  finished : LogThread S → Turn S
  again : LogThread S → Turn S

-- What other threads queue while a turn runs: while it hands out events, and while it looks at
-- the retry threads.
pub record Arrivals : Type 0 where
  pub during_log : List LogEvent
  pub during_sweep : List LogEvent

module _ {S : Type 0} where
  unfoldable pub push_all : List LogEvent → LogThread S → LogThread S
  unfolding push
  push_all [] t = t
  push_all (e ∷ es) t = push_all es (push e t)

  -- With the mutex held again: some thread is still active, or events came in, or it is the end.
  unfoldable pub conclude : Bool → List LogEvent → LogThread S → Turn S
  conclude true es t = again t
  conclude false [] t = finished t
  conclude false (e ∷ es) t = again t

  -- The branch of a turn where the end was asked for and no event is waiting.
  unfoldable pub try_finish : List LogEvent → LogThread S → Turn S
  unfolding sweep push_all conclude
  try_finish arrived t = elim (sweep t.retry_map) [
    | none ↦ fault
    | some (m, still_active) ↦
        let t' = push_all arrived (record t { retry_map = m }) in conclude still_active t'.events t'
  ]

  unfoldable pub is_idle : LogThread S → Bool
  is_idle t = elim t.events [ [] ↦ true | e ∷ es ↦ false ]

  -- A turn of the loop of do_run. Its wait for a signal is the end of the turn.
  unfoldable pub turn : StreamClass S → Bool → (ℕ → Bytes) → Arrivals → LogThread S → Turn S
  unfolding log_all try_finish is_idle push_all
  turn cls can_start strftime env t =
      elim (log_all cls can_start strftime t.events (record t { events = [] })) [
        | none ↦ fault
        | some handed ↦
            let t' = push_all env.during_log handed in
            if t'.do_terminate && is_idle t' then try_finish env.during_sweep t' else again t'
      ]
