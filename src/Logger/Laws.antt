-- ===== src/Logger/Laws.antt =====
-- Filtering by level, and the map of streams.
use epics_logfile.Base.{
  ℕ, ◌≡◌, ◌≢◌, ◌⊎◌, refl, sym, ◌∙◌, inl, inr, Bool, true, false, [], ◌∷◌, ◌++◌, none, some, Bytes,
  is_empty, bytes_eq, bytes_eq_iff, arith, Bool-cases, Option-cases, if◌then◌else◌, ◌==◌,
}
use epics_logfile.Base.Map.{
  nat_key, bytes_key, find, emplace, erase, find-emplace_new, emplace_old, find-erase,
}
use epics_logfile.Level.{Level, level_lt}
use epics_logfile.Event.{LogEvent}
use epics_logfile.OutputStream.{StreamClass, OutputStream}
use epics_logfile.LogThread.{LogThread, store, push}
use epics_logfile.Retry.{Queue}
use epics_logfile.Registry.{SubsystemInfo}
use epics_logfile.System.{retry}
use epics_logfile.Logger.{
  Logger, terminate, log, sus_log, enqueue_on, add_output_stream, remove_output_stream,
  delete_stream,
}

-- The event that a call of logger::log makes.
abbrev pub event_of : ℕ → Level → ℕ → Bytes → Bytes → SubsystemInfo → LogEvent
event_of now level subsystem message function info = record {
  level = level;
  subsystem = subsystem;
  message = message;
  time = now;
  function = function;
  subsystem_string = info.name;
  time_string = [];
}

module _ {S : Type 0} where
  -- A message of a registered subsystem, on a running logger, is put at the end of the thread's
  -- queue, if its level is below neither the compile-time minimum nor the subsystem's; otherwise
  -- the logger stays as it is.
  pub sus_log_lem :
      (minimum level : Level) (now subsystem : ℕ) (message function : Bytes) (l : Logger S)
      (t : LogThread S) (info : SubsystemInfo)
      → find subsystem l.registry.subsystems ≡ some info
      → l.thread ≡ some t
      → ((level_lt level minimum ≡ false)
          × (level_lt level info.min_level ≡ false)
          × (t' : LogThread S) × (sus_log minimum now level subsystem message function l
              ≡ some (record l { thread = some t' }))
          × (t'.events ≡ t.events ++ event_of now level subsystem message function info ∷ []))
        ⊎ (((level_lt level minimum ≡ true) ⊎ (level_lt level info.min_level ≡ true))
            × (sus_log minimum now level subsystem message function l ≡ some l))
  unfolding sus_log push
  sus_log_lem minimum level now subsystem message function l t info hit run =
      elim (Bool-cases (level_lt level minimum)) [
        | inl low ↦ inr (inl low, rw low)
        | inr high ↦ elim (Bool-cases (level_lt level info.min_level)) [
          | inl low ↦ inr (inr low, rw (high, hit, log) (rw low))
          | inr enough ↦ inl (
            high,
            enough,
            push (event_of now level subsystem message function info) t,
            rw (high, hit, log) (rw enough (rw (run, enqueue_on))),
            refl,
          )
        ]
      ]

  -- Without a log thread, as after logger::terminate, a message that passes the levels is a fault.
  pub log_after_terminate :
      (level : Level) (now subsystem : ℕ) (message function : Bytes) (l : Logger S)
      (info : SubsystemInfo)
      → find subsystem l.registry.subsystems ≡ some info
      → level_lt level info.min_level ≡ false
      → log now level subsystem message function (terminate l) ≡ none
  unfolding log terminate
  log_after_terminate level now subsystem message function l info hit enough =
      rw (hit, log) (rw enough)

bytes_self : (a b : Bytes) → a ≡ b → bytes_eq a b ≡ true
bytes_self a b h = (bytes_eq_iff a b).1 h

self : (a : ℕ) → (a == a) ≡ true
self a = ground arith

ne_test : (a b : Bytes) → a ≢ b → bytes_eq a b ≡ false
ne_test a b ne = ground (arith, bytes_eq_iff a b)

-- The reference that a stream is added under.
abbrev pub reference : Bytes → Bytes → Bytes
reference name ref = if is_empty ref then name else ref

module _ {S : Type 0} where
  -- A stream that is added under a free reference, its name() if none is given, is found there and
  -- can be removed, if its destructor returns: remove_output_stream then returns true, the stream
  -- is deleted, the reference is free again, and every other reference is as before. A reference in
  -- use is left as it is, so the new stream is not added.
  remove-add_output_stream :
      (cls : StreamClass S) (a : ℕ) (name ref : Bytes) (o : OutputStream S) (t : LogThread S)
      → t.heap a ≡ some o
      → cls.destructor o.sink ≡ true
      → ((find (reference name ref) t.streams ≡ none)
          × (t' : LogThread S) × (remove_output_stream cls
                (reference name ref)
                (add_output_stream a name ref t)
              ≡ some (t', true))
          × (t'.heap a ≡ none)
          × (find (reference name ref) t'.streams ≡ none)
          × ((other : Bytes)
              → other ≢ reference name ref
              → find other t'.streams ≡ find other t.streams))
        ⊎ ((b : ℕ) × (find (reference name ref) t.streams ≡ some b)
            × (add_output_stream a name ref t ≡ t))
  unfolding add_output_stream remove_output_stream delete_stream
  remove-add_output_stream cls a name ref o t live returns =
      elim (Option-cases (find (reference name ref) t.streams)) [
        | inl free ↦
            let key = reference name ref in
            let added = emplace key a t.streams in
            let there : find key added ≡ some a =
              find-emplace_new key key a t.streams free ∙ rw (bytes_self key key refl) in
            inl (
              free,
              record t { heap = store t.heap a none; streams = erase key added },
              rw (there, remove_output_stream) (rw (live, delete_stream) (rw returns)),
              rw (self a),
              find-erase key key added ∙ rw (bytes_self key key refl),
              λ other ne.
                  let apart = ne_test key other (λ e. ne (sym e)) in
                  find-erase key other added
                  ∙ rw (apart, find-emplace_new key other a t.streams free, apart),
            )
        | inr (b, taken) ↦ inr (b, taken, rw (emplace_old (reference name ref) a t.streams taken))
      ]

  -- Removing a stream, whose destructor returns, does not stop its retry thread: if an event waits
  -- for the stream, the thread's next turn writes to the deleted stream.
  pub remove_output_stream-retry :
      (cls : StreamClass S) (can_start : Bool) (strftime : ℕ → Bytes) (a now : ℕ) (name : Bytes)
      (o : OutputStream S) (e : LogEvent) (q : Queue) (t : LogThread S)
      → find name t.streams ≡ some a
      → t.heap a ≡ some o
      → cls.destructor o.sink ≡ true
      → find a t.retry_map ≡ some (some (e ∷ q))
      → (t' : LogThread S) × (remove_output_stream cls name t ≡ some (t', true))
        × (retry cls can_start strftime a now t' ≡ none)
  unfolding remove_output_stream delete_stream retry
  remove_output_stream-retry cls can_start strftime a now name o e q t named live returns waiting =
      (
        record t { heap = store t.heap a none; streams = erase name t.streams },
        rw (named, remove_output_stream) (rw (live, delete_stream) (rw returns)),
        rw (waiting, retry) (rw (self a)),
      )
