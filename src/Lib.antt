-- ===== src/Lib.antt =====
-- Logfile: a logging library for C++ programs, as a state machine over bytes and events.
--
-- A program calls the logger (logger.cpp), which drops what the minimum levels hold back and puts
-- the rest into the queue of the log thread (log_thread.cpp). That thread hands each event to every
-- output stream. A stream whose write fails gets a retry thread (retry_thread.cpp), which tries
-- again and expires old events, while the log thread puts new events into its queue. The streams
-- are classes over output_stream.cpp: standard output, a file, a list for Qt's views, and a STOMP
-- server behind a TCP socket.
--
-- Base holds what the modules share: texts as lists of bytes, std::map as an association list,
-- exceptions as results, and the native numbers. The parts of the program are:
--   Level         logger.h, logger_private.cpp: the levels and their names
--   Event         log_event.cpp: the event and the texts of its time
--   OutputStream  output_stream.cpp: the base class; its virtual functions are a record
--   Retry         retry_thread.cpp: a turn of the thread, from the end of its sleep
--   LogThread     log_thread.cpp: delivery, the retry map, and the end of the thread
--   System        log_thread.cpp and retry_thread.cpp together, as schedules of events and turns;
--                 Run is do_run to its return, Interleave the single steps of the two threads of
--                 one stream
--   Registry      logger.cpp: the registered subsystems; Registrator is subsystem_registrator.cpp
--   Logger        logger.cpp and the macros of logger.h: the logger object; Instance, Destroy,
--                 Format and Signal have instance(), ~logger, string_format and signal_handler
--   ParseUrl      parse_url.cpp
--   LineSplitter  line_splitter.cpp
--   FileStream    output_stream_file.cpp, over a model of the directory and of std::ofstream
--   Stdout        output_stream_stdout.cpp, over a model of std::ostream; Stoi is std::stoi
--   LogList       Qt/QLogList.cpp: the list behind the Qt views
--   Epics         EPICS/EPICSLog.cpp, EPICS/iocCommands.c: the commands of the EPICS shell
--   Tcp           tcp_client_socket.cpp; the operating system is a parameter, and so is OpenSSL,
--                 in Ssl
--   Stomp         output_stream_stomp.cpp: Create is the constructor, Greeting connect_thread, Reader
--                 and Timeout reader_thread, Exchange do_write over one state for connection,
--                 socket and replies, Sink the class with it; Sanitize, Reply, Packet, Connection
--                 the rest
-- Examples holds tests, and the theorems at concrete inputs.
--
-- A thread's work between two points where it waits is one step, and what other threads do in the
-- meantime is an argument of the step. Undefined behaviour of C++ and failed asserts are `none` or
-- `fault`. Numbers of a fixed width are reduced modulo a power of two where the code relies on it:
-- the ids of subsystems, the bytes of a SOCKS request, the number of a STOMP receipt. A time point
-- counts nanoseconds since the epoch.
--
-- Loops over a text run on fuel, one more than the length of the text; each of their rounds takes
-- at least one byte, and the theorems about them state that a result is reached. string_format runs
-- on fuel too, as its loop has no bound where vsnprintf fails. do_run goes over a list of rounds,
-- one for each turn of its loop.
--
-- Not modelled are mutexes, whose sections are single steps; log messages of the library about
-- itself, but for signals; two reader threads at once, as after a reconnection; the child process
-- that runs gdb; the Qt widgets, which only call Qt; and the example program.
mod Base
pub mod Level
pub mod Event
pub mod OutputStream
pub mod Retry
pub mod LogThread
pub mod System
pub mod ParseUrl
pub mod LineSplitter
pub mod Registry
pub mod Logger
pub mod Stomp
pub mod FileStream
pub mod Stdout
pub mod LogList
pub mod Epics
pub mod Tcp
mod Examples
