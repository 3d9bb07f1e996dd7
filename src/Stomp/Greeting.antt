-- ===== src/Stomp/Greeting.antt =====
-- connect_thread (output_stream_stomp.cpp) as a whole, and with it the reader thread that it
-- starts, up to the first reply.
pub mod Leftover
use epics_logfile.Base.{
  ℕ, ◌≡◌, ◌≢◌, refl, sym, ap, subst, ◌∙◌, Bool, true, false, ◌&&◌, List, [], ◌∷◌, ◌++◌, append-nil,
  append_assoc, Option, none, some, Bytes, codes, is_empty, drop, length, bytes_eq, bytes_eq_iff,
  Result, ok, throw, Lacks, Lacks-append, All, arith, if◌then◌else◌, length-append,
}
use epics_logfile.Base.Map.{find, bytes_key}
use epics_logfile.ParseUrl.{UrlInfo}
use epics_logfile.LineSplitter.Lines.{concat}
use epics_logfile.Tcp
use epics_logfile.Tcp.{System, Socket}
use epics_logfile.Stomp.Reply.{Reply, parse_frame, check_server_version, parse_heartbeat}
use epics_logfile.Stomp.Header.{render_frame, IsHeader, parse_frame-render_frame}
use epics_logfile.Stomp.Reader.{Reader, read_blocks, end_frame, handle_reply}
use epics_logfile.Stomp.Machine.{take_bytes, take_bytes_nil}
use epics_logfile.Stomp.Stream.{read_blocks-take_bytes, take_frame, extended, BeginsWithData}
use epics_logfile.Stomp.Packet.{connect_packet}
use epics_logfile.Stomp.Connection.{Connection, connect_thread, disconnect}

-- The members that the thread and the reader share.
pub record Session (N : Type 0) : Type 0 where
  pub m_socket : Socket N
  pub reader : Reader
  pub connection : Connection

abbrev pub first : List Reply → Option Reply
first [] = none
first (r ∷ rs) = some r

module _ {N A : Type 0} (os : System N A) (url : UrlInfo) where
  -- disconnect() and the end of the thread.
  give_up : Session N → Session N
  unfolding disconnect
  give_up s = record s {
    m_socket = Tcp.disconnect s.m_socket;
    connection = record (disconnect s.connection) { m_connect_thread_done = true };
  }

  -- From the reply on; without one, the wait has timed out. disconnect() ends the reader as well.
  on_reply : Session N → Session N
  unfolding connect_thread
  on_reply s =
      let c = connect_thread (first s.reader.m_reply_queue) s.connection in
      record {
        m_socket = if c.m_connected then s.m_socket else Tcp.disconnect s.m_socket;
        reader = record s.reader {
          m_reply_queue = drop 1 s.reader.m_reply_queue;
          connected = if c.m_connected then s.reader.connected else false;
        };
        connection = c;
      }

  -- The reader thread gets the blocks `bufs` before the wait ends.
  greeted : List Bytes → Result (Unit {0}) × Socket N → Session N → Option (Session N)
  unfolding give_up on_reply
  greeted bufs (throw x, socket) s = some (give_up (record s { m_socket = socket }))
  greeted bufs (ok _, socket) s = elim (read_blocks bufs (record s.reader { connected = true })) [
    | none ↦ none
    | some reader ↦ some (
        on_reply (record s {
          m_socket = if reader.connected then socket else Tcp.disconnect socket;
          reader = reader;
        }))
  ]

  unfoldable pub reached :
      List Bytes → Result (Unit {0}) × Socket N → Session N → Option (Session N)
  unfolding greeted
  reached bufs (throw x, socket) s = some (record s {
    m_socket = socket;
    connection = record s.connection { m_connect_thread_done = true };
  })
  reached bufs (ok _, socket) s = greeted bufs (Tcp.write os (connect_packet url) socket) s

  -- connect_thread.
  unfoldable pub run_connect : List Bytes → Session N → Option (Session N)
  unfolding reached
  run_connect bufs s = reached bufs (Tcp.connect os s.m_socket) s
