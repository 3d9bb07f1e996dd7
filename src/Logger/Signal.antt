-- ===== src/Logger/Signal.antt =====
-- gdb_backtrace and signal_handler (logger.cpp), on a unix system with backtrace_symbols. The
-- system calls are parameters: what they return, and what gdb writes into the pipe. So is what the
-- log thread and the other threads do meanwhile. The signal comes while its thread holds no mutex.
pub mod Reports
use epics_logfile.Base.{
  ℕ, suc, ◌+◌, ◌≡◌, refl, sym, subst, length, ◌∙◌, ap, Bool, true, false, List, [], ◌∷◌, ◌++◌,
  Option, none, some, map, Bytes, codes, ◌==◌, if◌then◌else◌, arith, append-nil, append_assoc, ◌⊎◌,
  inl, inr, Bool-cases,
}
use epics_logfile.Base.Map.{nat_key, find}
use epics_logfile.Base.Decimal.{decimal}
use epics_logfile.Level.{Level, severe, level_lt}
use epics_logfile.Event.{LogEvent}
use epics_logfile.LogThread.{LogThread}
use epics_logfile.LineSplitter.{feed}
use epics_logfile.LineSplitter.Lines.{all_lines, concat, feed_lines}
use epics_logfile.Registry.{SubsystemInfo}
use epics_logfile.Logger.{Logger, sus_log, terminate}
use epics_logfile.Logger.Instance.{Handler}
use epics_logfile.Logger.Laws.{event_of, sus_log_lem}

-- What gdb_backtrace meets: pipe() fails, or the reads give these blocks before one that gives none,
-- and waitpid this status. The child that fork makes is another program, and not modelled.
pub data Gdb : Type 0 where
  no_pipe : Gdb
  parent : List Bytes → ℕ → Gdb

abbrev pub signal_text : ℕ → Bytes
signal_text sig = codes "SIGNAL " ++ (decimal sig ++ codes " received.")

-- The logger, and the events that the log thread has taken from its queue since the signal.
abbrev pub Progress : Type 0 → Type 0
Progress S = Logger S × List LogEvent

-- `meanwhile i` is what the other threads do to the log thread before the call number `i` of SuS_LOG,
-- and the events that the log thread takes from its queue. `function` and `in_lambda` are
-- SuS_FUNCNAME in signal_handler, and in the function that gets the lines of gdb.
module _ {S : Type 0} (minimum : Level) (clock : ℕ → ℕ) (log_id : ℕ) (function in_lambda : Bytes)
    (meanwhile : ℕ → LogThread S → LogThread S × List LogEvent) where
  before_call : ℕ → Progress S → Progress S
  before_call i (l, taken) = elim l.thread [
    | none ↦ (l, taken)
    | some t ↦ let (t', more) = meanwhile i t in (record l { thread = some t' }, taken ++ more)
  ]

  log_text : ℕ → Bytes × Bytes → Progress S → Option (Progress S)
  unfolding sus_log
  log_text i (name, text) (l, taken) = elim (sus_log minimum (clock i) severe log_id text name l) [
    | none ↦ none
    | some l' ↦ some (l', taken)
  ]

  -- SuS_LOG(severe, log_id(), text) for each of the texts, with SuS_FUNCNAME before it; the call
  -- number `i` is made at the time `clock i`.
  log_texts : ℕ → List (Bytes × Bytes) → Progress S → Option (Progress S)
  unfolding before_call log_text
  log_texts i [] s = some s
  log_texts i (text ∷ texts) s = elim (log_text i text (before_call i s)) [
    | none ↦ none
    | some s' ↦ log_texts (suc i) texts s'
  ]

  abbrev named : Bytes → List Bytes → List (Bytes × Bytes)
  named name texts = map (λ text. (name, text)) texts

  -- gdb_backtrace, with the number of its next call of SuS_LOG.
  gdb_backtrace : ℕ → Gdb → Progress S → Option (Bool × ℕ × Progress S)
  unfolding log_texts
  gdb_backtrace i no_pipe s = some (false, i, s)
  gdb_backtrace i (parent blocks status) s = elim (feed [] blocks) [
    | none ↦ none
    | some lines ↦ elim (log_texts i (named in_lambda lines) s) [
      | none ↦ none
      | some s' ↦ some (status == 0, i + length (named in_lambda lines), s')
    ]
  ]

  -- The branch without a backtrace by gdb, with the texts that ::backtrace_symbols gives.
  fall_back : List Bytes → Bool × ℕ × Progress S → Option (Progress S)
  unfolding log_texts
  fall_back symbols (true, i, s) = some s
  fall_back symbols (false, i, s) = log_texts i (named function symbols) s

  -- What signal_handler logs, up to its call of terminate().
  report : ℕ → Gdb → List Bytes → Progress S → Option (Progress S)
  unfolding log_texts gdb_backtrace fall_back
  report sig gdb symbols s = elim (log_texts 0 ((function, signal_text sig) ∷ []) s) [
    | none ↦ none
    | some s' ↦ elim (gdb_backtrace 1 gdb s') [ none ↦ none | some r ↦ fall_back symbols r ]
  ]

-- The end of signal_handler: the old handler is called, or exit(1).
pub data After : Type 0 where
  exits : After
  calls : Handler → After

unfoldable pub after : Handler → After
after Handler.default_action = After.exits
after Handler.logger_handler = After.calls Handler.logger_handler
after (Handler.other_handler n) = After.calls (Handler.other_handler n)

module _ {S : Type 0} (minimum : Level) (clock : ℕ → ℕ) (log_id : ℕ) (function in_lambda : Bytes)
    (meanwhile : ℕ → LogThread S → LogThread S × List LogEvent) where
  -- signal_handler: the logger when terminate() is called and the events that the log thread has
  -- taken by then, the logger after it, and what follows.
  unfoldable pub signal_handler :
      ℕ → Gdb → List Bytes → Handler → Logger S → Option (Progress S × Logger S × After)
  unfolding report terminate after
  signal_handler sig gdb symbols old l =
      elim (report minimum clock log_id function in_lambda meanwhile sig gdb symbols (l, [])) [
        | none ↦ none
        | some (l', taken) ↦ some ((l', taken), terminate l', after old)
      ]
