-- ===== src/Epics.antt =====
-- EPICS/EPICSLog.h, EPICS/EPICSLog.cpp, EPICS/iocCommands.c: the commands of the EPICS shell. An
-- argument that is left out is a null pointer, `none`. A command's result is the logger and what
-- it writes to std::cerr; `none` is a text made of a null pointer, or an exception that leaves the
-- command.
pub mod Commands
use epics_logfile.Base.{
  ℕ, zero, suc, Bool, true, false, List, [], ◌∷◌, ◌++◌, Option, none, some, Bytes, codes,
  if◌then◌else◌, Result, ok, throw, ◌>>=◌, Exception, invalid_argument, runtime_error, out_of_range,
}
use epics_logfile.Level.{Level, level_name, level_by_name, all_levels}
use epics_logfile.OutputStream.{StreamClass, OutputStream, new_stream}
use epics_logfile.LogThread.{LogThread, store}
use epics_logfile.Registry.{find_subsystem, set_subsystem_min_log_level}
use epics_logfile.Logger.{Logger, add_output_stream, set_stream_min_log_level, dump_configuration}

-- The lines with the names of the levels.
unfoldable pub level_lines : List Level → Result Bytes
level_lines [] = ok []
level_lines (i ∷ rest) = do
  name ← level_name i
  lines ← level_lines rest
  ok (codes "   - " ++ (name ++ (codes "\n" ++ lines)))

module _ {S : Type 0} where
  -- logger::instance()->set_min_log_level(_streamname, level), and the message if it fails.
  set_stream_level : Option Bytes → Level → Logger S → Option (Logger S × Bytes)
  unfolding set_stream_min_log_level
  set_stream_level none level l = none
  set_stream_level (some streamname) level l = elim l.thread [
    | none ↦ none
    | some t ↦ elim (set_stream_min_log_level streamname level t) [
      | none ↦ none
      | some (t', found) ↦ some (
        record l { thread = some t' },
        if found then [] else codes "Unknown output stream '" ++ (streamname ++ codes "'\n"),
      )
    ]
  ]

  unknown_level : Bytes → Result Bytes → Logger S → Option (Logger S × Bytes)
  unknown_level level (throw x) l = none
  unknown_level level (ok lines) l =
      some (l, codes "Unknown log level '" ++ (level ++ (codes "'\nKnown levels are:" ++ lines)))

  -- The try block of LogfileSetMinLevel, and its handler.
  set_level_or_complain : Option Bytes → Bytes → Result Level → Logger S → Option (Logger S × Bytes)
  unfolding set_stream_level unknown_level level_lines
  set_level_or_complain streamname level (ok l) logger = set_stream_level streamname l logger
  set_level_or_complain streamname level (throw (invalid_argument what)) logger =
      unknown_level level (level_lines all_levels) logger
  set_level_or_complain streamname level (throw (runtime_error what)) logger = none
  set_level_or_complain streamname level (throw (out_of_range what)) logger = none

  -- LogfileSetMinLevel.
  unfoldable pub logfile_set_min_level :
      Option Bytes → Option Bytes → Logger S → Option (Logger S × Bytes)
  unfolding set_level_or_complain
  logfile_set_min_level streamname none l = none
  logfile_set_min_level streamname (some level) l =
      set_level_or_complain streamname level (level_by_name level) l

  -- find_subsystem and set_subsystem_min_log_level, in LogfileSetSubsystemMinLevel.
  set_subsystem_level : Level → Result ℕ → Logger S → Option (Logger S × Bytes)
  set_subsystem_level level (throw (invalid_argument what)) l = some (l, [])
  set_subsystem_level level (throw (runtime_error what)) l = none
  set_subsystem_level level (throw (out_of_range what)) l = none
  set_subsystem_level level (ok sub_id) l =
      elim (set_subsystem_min_log_level sub_id level l.registry) [
        | none ↦ none
        | some r ↦ some (record l { registry = r }, [])
      ]

  set_named_subsystem : Option Bytes → Result Level → Logger S → Option (Logger S × Bytes)
  unfolding set_subsystem_level
  set_named_subsystem subsystem (throw (invalid_argument what)) l = some (l, [])
  set_named_subsystem subsystem (throw (runtime_error what)) l = none
  set_named_subsystem subsystem (throw (out_of_range what)) l = none
  set_named_subsystem none (ok level) l = none
  set_named_subsystem (some subsystem) (ok level) l =
      set_subsystem_level level (find_subsystem subsystem l.registry) l

  -- LogfileSetSubsystemMinLevel.
  unfoldable pub logfile_set_subsystem_min_level :
      Option Bytes → Option Bytes → Logger S → Option (Logger S × Bytes)
  unfolding set_named_subsystem
  logfile_set_subsystem_min_level subsystem none l = none
  logfile_set_subsystem_min_level subsystem (some level) l =
      set_named_subsystem subsystem (level_by_name level) l

-- The sinks that the commands make are parameters: what `new` gives for the file and the STOMP
-- stream, which can throw. `a` is the address of the new stream.
module _ {S : Type 0} (cls : StreamClass S) (minimum : Level) (file_stream : Bytes → S)
    (stomp_stream : Bytes → Bytes → Result S) (a : ℕ) where
  add_sink : S → Logger S → Option (Logger S × Bytes)
  unfolding add_output_stream new_stream
  add_sink s l = elim l.thread [
    | none ↦ none
    | some t ↦ some (
      record l {
        thread = some (
            add_output_stream a (cls.name s) []
              (record t { heap = store t.heap a (some (new_stream minimum s)) }));
      },
      [],
    )
  ]

  -- LogfileAddFileStream.
  logfile_add_file_stream : Option Bytes → Logger S → Option (Logger S × Bytes)
  unfolding add_sink
  logfile_add_file_stream none l = none
  logfile_add_file_stream (some filename) l = add_sink (file_stream filename) l

  add_made : Result S → Logger S → Option (Logger S × Bytes)
  unfolding add_sink
  add_made (throw x) l = none
  add_made (ok s) l = add_sink s l

  -- LogfileAddStompStream.
  logfile_add_stomp_stream : Option Bytes → Option Bytes → Logger S → Option (Logger S × Bytes)
  unfolding add_made
  logfile_add_stomp_stream (some appname) (some server) l = add_made (stomp_stream appname server) l
  logfile_add_stomp_stream (some appname) none l = none
  logfile_add_stomp_stream none server l = none

-- The commands of iocCommands.c, their names and the names of their arguments.
pub data Command : Type 0 where
  log_add_file_stream log_add_stomp_stream log_dump log_set_min_level log_set_subsystem_min_level :
      Command

command_name : Command → Bytes
command_name log_add_file_stream = codes "logAddFileStream"
command_name log_add_stomp_stream = codes "logAddStompStream"
command_name log_dump = codes "logDump"
command_name log_set_min_level = codes "logSetMinLevel"
command_name log_set_subsystem_min_level = codes "logSetSubsystemMinLevel"

command_args : Command → List Bytes
command_args log_add_file_stream = codes "file name" ∷ []
command_args log_add_stomp_stream = codes "application name" ∷ codes "server name" ∷ []
command_args log_dump = []
command_args log_set_min_level = codes "stream name" ∷ codes "level name" ∷ []
command_args log_set_subsystem_min_level = codes "subsystem name" ∷ codes "level name" ∷ []

-- logRegisterCommands: firstTime, and what has been given to iocshRegister.
register_commands : Bool → List Command → Bool × List Command
register_commands false registered = (false, registered)
register_commands true registered = (
  false,
  registered
      ++ (log_add_file_stream ∷ log_add_stomp_stream ∷ log_dump ∷ log_set_min_level
          ∷ log_set_subsystem_min_level ∷ []),
)

-- _args[i].sval; the shell gives null for an argument that is left out.
arg : ℕ → List (Option Bytes) → Option Bytes
arg i [] = none
arg zero (a ∷ args) = a
arg (suc i) (a ∷ args) = arg i args

module _ {S : Type 0} (cls : StreamClass S) (minimum : Level) (file_stream : Bytes → S)
    (stomp_stream : Bytes → Bytes → Result S) (a : ℕ) where
  unfoldable pub shown : Logger S → Option (Result Bytes) → Option (Logger S × Bytes)
  shown l none = none
  shown l (some (throw x)) = none
  shown l (some (ok text)) = some (l, text)

  -- LogfileDump writes to std::cout.
  logfile_dump : Logger S → Option (Logger S × Bytes)
  unfolding dump_configuration shown
  logfile_dump l = elim l.thread [
    | none ↦ none
    | some t ↦ shown l (dump_configuration minimum cls l.registry t)
  ]

  -- The function that is registered with each command.
  call_func : Command → List (Option Bytes) → Logger S → Option (Logger S × Bytes)
  unfolding arg logfile_dump logfile_set_min_level logfile_set_subsystem_min_level
      logfile_add_file_stream logfile_add_stomp_stream
  call_func log_add_file_stream args l =
      logfile_add_file_stream cls minimum file_stream stomp_stream a (arg 0 args) l
  call_func log_add_stomp_stream args l =
      logfile_add_stomp_stream cls minimum file_stream stomp_stream a (arg 0 args) (arg 1 args) l
  call_func log_dump args l = logfile_dump l
  call_func log_set_min_level args l = logfile_set_min_level (arg 0 args) (arg 1 args) l
  call_func log_set_subsystem_min_level args l =
      logfile_set_subsystem_min_level (arg 0 args) (arg 1 args) l
