-- ===== src/Logger.antt =====
-- logger.h, logger.cpp: the logger object. `none` stands for what ends or corrupts the program: a
-- failed assert, a null or dangling pointer. Every function here is called on the instance, and
-- the mutex of instance() is not needed for them.
pub mod Laws
pub mod Format
pub mod Instance
pub mod Signal
pub mod Destroy
use epics_logfile.Base.{
  ℕ, Bool, true, false, List, [], ◌∷◌, ◌++◌, Option, none, some, Bytes, codes, is_empty,
  if◌then◌else◌, Result, ok, ◌>>=◌,
}
use epics_logfile.Base.Map.{nat_key, bytes_key, find, emplace, erase}
use epics_logfile.Level.{Level, level_lt, level_name}
use epics_logfile.Event.{LogEvent}
use epics_logfile.OutputStream.{StreamClass, OutputStream, set_min_log_level, dump}
use epics_logfile.LogThread.{LogThread, store, push}
use epics_logfile.Registry.{SubsystemInfo, Registry}

-- logger_private. The thread is null after logger::terminate.
pub record Logger (S : Type 0) : Type 0 where
  pub registry : Registry
  pub thread : Option (LogThread S)

module _ {S : Type 0} where
  enqueue_on : LogEvent → Logger S → Option (LogThread S) → Option (Logger S)
  unfolding push
  enqueue_on e l none = none
  enqueue_on e l (some t) = some (record l { thread = some (push e t) })

  -- What logger::log does for a registered subsystem.
  log_for : ℕ → Level → ℕ → Bytes → Bytes → SubsystemInfo → Logger S → Option (Logger S)
  unfolding enqueue_on
  log_for now level subsystem message function info l =
      if level_lt level info.min_level
      then some l
      else enqueue_on
          (record {
            level = level;
            subsystem = subsystem;
            message = message;
            time = now;
            function = function;
            subsystem_string = info.name;
            time_string = [];
          })
          l l.thread

  -- logger::log, at the time `now`.
  unfoldable pub log : ℕ → Level → ℕ → Bytes → Bytes → Logger S → Option (Logger S)
  unfolding log_for
  log now level subsystem message function l = elim (find subsystem l.registry.subsystems) [
    | none ↦ none
    | some info ↦ log_for now level subsystem message function info l
  ]

  -- The macros SuS_LOG, SuS_LOG_STREAM and SuS_LOG_PRINTF; `minimum` is SuS_LOG_MINLEVEL.
  unfoldable pub sus_log : Level → ℕ → Level → ℕ → Bytes → Bytes → Logger S → Option (Logger S)
  unfolding log
  sus_log minimum now level subsystem message function l =
      if level_lt level minimum then some l else log now level subsystem message function l

  -- logger::add_output_stream, for the stream at `a`, whose name() is `name`.
  unfoldable pub add_output_stream : ℕ → Bytes → Bytes → LogThread S → LogThread S
  add_output_stream a name ref t = record t {
    streams = emplace (if is_empty ref then name else ref) a t.streams;
  }

  -- `delete i->second` and the erase. Deleting a stream twice is a fault; the destructor of the
  -- stream may end the program.
  delete_stream : StreamClass S → ℕ → Bytes → LogThread S → Option (LogThread S × Bool)
  delete_stream cls a name t = elim (t.heap a) [
    | none ↦ none
    | some o ↦
        if cls.destructor o.sink
        then some (record t { heap = store t.heap a none; streams = erase name t.streams }, true)
        else none
  ]

  -- logger::remove_output_stream.
  unfoldable pub remove_output_stream :
      StreamClass S → Bytes → LogThread S → Option (LogThread S × Bool)
  unfolding delete_stream
  remove_output_stream cls name t = elim (find name t.streams) [
    | none ↦ some (t, false)
    | some a ↦ delete_stream cls a name t
  ]

  unfoldable pub set_level_at : ℕ → Level → LogThread S → Option (LogThread S × Bool)
  unfolding set_min_log_level
  set_level_at a level t = elim (t.heap a) [
    | none ↦ none
    | some o ↦ some (record t { heap = store t.heap a (some (set_min_log_level level o)) }, true)
  ]

  -- logger::set_min_log_level.
  unfoldable pub set_stream_min_log_level :
      Bytes → Level → LogThread S → Option (LogThread S × Bool)
  unfolding set_level_at
  set_stream_min_log_level name level t = elim (find name t.streams) [
    | none ↦ some (t, false)
    | some a ↦ set_level_at a level t
  ]

  -- logger::terminate, once the thread has been joined.
  unfoldable pub terminate : Logger S → Logger S
  terminate l = record l { thread = none }

  -- The loop over the streams of dump_configuration. `none` is a stream that was deleted.
  dump_streams :
      StreamClass S → (ℕ → Option (OutputStream S)) → List (Bytes × ℕ) → Option (Result Bytes)
  unfolding dump
  dump_streams cls heap [] = some (ok [])
  dump_streams cls heap ((name, a) ∷ rest) = elim (heap a) [
    | none ↦ none
    | some o ↦ elim (dump_streams cls heap rest) [
      | none ↦ none
      | some more ↦ some (do text ← dump cls o; texts ← more; ok (text ++ texts))
    ]
  ]

-- The loop over the subsystems.
dump_subsystems : List (ℕ × SubsystemInfo) → Result Bytes
dump_subsystems [] = ok []
dump_subsystems ((id, info) ∷ rest) = do
  level ← level_name info.min_level
  texts ← dump_subsystems rest
  ok (codes "   - " ++ info.name ++ codes "\n     min. log level: " ++ level ++ codes "\n" ++ texts)

-- logger::dump_configuration; `minimum` is SuS_LOG_MINLEVEL.
unfoldable pub dump_configuration :
    {S : Type 0} → Level → StreamClass S → Registry → LogThread S → Option (Result Bytes)
unfolding dump_streams dump_subsystems
dump_configuration minimum cls r t = elim (dump_streams cls t.heap t.streams) [
  | none ↦ none
  | some streams ↦ some (do
    global ← level_name minimum
    stream_texts ← streams
    subsystem_texts ← dump_subsystems r.subsystems
    ok (
        codes "global min. log level (compile-time): "
        ++ global
        ++ codes "\nactive output streams:\n"
        ++ stream_texts
        ++ codes "active logging subsystems\n"
        ++ subsystem_texts))
]
