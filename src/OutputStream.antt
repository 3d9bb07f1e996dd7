-- ===== src/OutputStream.antt =====
-- output_stream.h, output_stream.cpp, output_stream_private.h: the base class of the sinks. A sink
-- has its own state `S`, and the virtual functions of its class.
use epics_logfile.Base.{
  Bool, true, false, not, List, [], ◌∷◌, ◌++◌, ◌≡◌, if◌then◌else◌, arith, ℕ, append-nil, keep_if,
  Bytes, codes, Result, ok, ◌>>=◌,
}
use epics_logfile.Level.{Level, level_lt, level_name}
use epics_logfile.Event.{LogEvent}

-- The virtual functions that a sink's class overrides; of the destructor, whether it returns, or
-- ends the program.
pub record StreamClass (S : Type 0) : Type 0 where
  pub do_write : LogEvent → S → Bool × S
  pub name : S → Bytes
  pub retry_time : S → ℕ
  pub destructor : S → Bool

-- output_stream::retry_time, for a class that does not override it.
abbrev default_retry_time : ℕ
default_retry_time = 30

pub record OutputStream (S : Type 0) : Type 0 where
  pub min_log_level : Level
  pub sink : S

-- The events that a stream's minimum level lets through.
unfoldable pub clears : Level → LogEvent → Bool
clears minimum e = not (level_lt e.level minimum)

module _ {S : Type 0} where
  -- The constructor; `minimum` is SuS_LOG_MINLEVEL.
  unfoldable pub new_stream : Level → S → OutputStream S
  new_stream minimum s = record { min_log_level = minimum; sink = s }

  unfoldable pub set_min_log_level : Level → OutputStream S → OutputStream S
  set_min_log_level l o = record o { min_log_level = l }

  -- output_stream::write: an event below the minimum is no error.
  unfoldable pub write : StreamClass S → LogEvent → OutputStream S → Bool × OutputStream S
  write cls e o =
      if level_lt e.level o.min_log_level
      then (true, o)
      else (let (done, s) = cls.do_write e o.sink in (done, record o { sink = s }))

  -- output_stream::dump.
  unfoldable pub dump : StreamClass S → OutputStream S → Result Bytes
  dump cls o = do
    level ← level_name o.min_log_level
    ok (codes "   - " ++ cls.name o.sink ++ codes "\n     min. log level: " ++ level ++ codes "\n")

  -- The same class, with a record of the events whose do_write succeeded. The code keeps none: it
  -- is there to state what has been delivered.
  abbrev pub recorded : StreamClass S → StreamClass (S × List LogEvent)
  recorded cls = record {
    do_write = λ e p.
        let (done, s) = cls.do_write e p.0 in (done, (s, if done then p.1 ++ e ∷ [] else p.1));
    name = λ p. cls.name p.0;
    retry_time = λ p. cls.retry_time p.0;
    destructor = λ p. cls.destructor p.0;
  }

  -- What has been delivered to a recording stream.
  abbrev pub delivered : OutputStream (S × List LogEvent) → List LogEvent
  delivered o = o.sink.1

  pub write-min_log_level :
      (cls : StreamClass S) (e : LogEvent) (o : OutputStream S)
      → (write cls e o).1.min_log_level ≡ o.min_log_level
  unfolding write
  write-min_log_level cls e o = ground arith

module _ {S : Type 0} (cls : StreamClass S) where
  -- A write that reports success has delivered the event, or the minimum holds it back.
  pub write_ok :
      (e : LogEvent) (o : OutputStream (S × List LogEvent))
      → (write (recorded cls) e o).0 ≡ true
      → delivered (write (recorded cls) e o).1
        ≡ delivered o ++ keep_if (clears o.min_log_level) (e ∷ [])
  unfolding write clears
  write_ok e o h = ground (arith, append-nil (delivered o))

  -- One that reports failure has delivered nothing, and the event was not held back.
  pub write_failed :
      (e : LogEvent) (o : OutputStream (S × List LogEvent))
      → (write (recorded cls) e o).0 ≡ false
      → (delivered (write (recorded cls) e o).1 ≡ delivered o) × (clears o.min_log_level e ≡ true)
  unfolding write clears
  write_failed e o h = ground arith
