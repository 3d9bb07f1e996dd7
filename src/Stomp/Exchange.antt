-- ===== src/Stomp/Exchange.antt =====
-- do_write (output_stream_stomp.cpp) as a whole: one state for the connection, the socket and the
-- reader thread, with what that thread and connect_thread do meanwhile.
pub mod Receipt
pub mod Taken
pub mod Answered
pub mod Runs
pub mod Success
pub mod Greeted
use epics_logfile.Base.{
  ℕ, ◌+◌, ◌%◌, ◌^◌, Bool, true, false, not, ◌&&◌, List, [], ◌∷◌, ◌++◌, Option, none, some, Bytes,
  drop, Result, ok, throw, if◌then◌else◌,
}
use epics_logfile.Event.{LogEvent}
use epics_logfile.ParseUrl.{UrlInfo}
use epics_logfile.Tcp
use epics_logfile.Tcp.{System, Socket}
use epics_logfile.Stomp.Sanitize.{Entity}
use epics_logfile.Stomp.Reply.{Reply}
use epics_logfile.Stomp.Reader.{Reader, read_blocks}
use epics_logfile.Stomp.Packet.{Sender, send_packet}
use epics_logfile.Stomp.Connection.{Connection, disconnect, connect_on, check_receipt}
use epics_logfile.Stomp.Greeting.{Session, first, run_connect}

-- What happens before and during a call: the blocks that the reader gets while no call runs; those
-- that connect_thread's reader gets, if that thread ends behind connect's first test; those that
-- the reader gets before do_write looks into the queue, and those that it gets while do_write waits;
-- and whether that wait ends by its timeout.
pub record Meanwhile : Type 0 where
  pub idle : List Bytes
  pub connect_thread : Option (List Bytes)
  pub before : List Bytes
  pub waiting : List Bytes
  pub timed_out : Bool

-- do_write's packet with its last byte. An exception ends the program: no thread handles it.
unfoldable pub packet_for : List Entity → Sender → LogEvent → Option Bytes
packet_for order texts e = elim (send_packet order texts e) [
  | throw x ↦ none
  | ok none ↦ none
  | ok (some packet) ↦ some (packet ++ 0 ∷ [])
]

-- ++m_receipt, an unsigned of 32 bits.
unfoldable pub next_receipt : ℕ → ℕ
next_receipt n = (n + 1) % 2 ^ 32

module _ {N : Type 0} where
  -- disconnect(). The reader thread's next read fails, and it ends.
  unfoldable pub drop_connection : Session N → Session N
  unfolding disconnect
  drop_connection s = record {
    m_socket = Tcp.disconnect s.m_socket;
    reader = record s.reader { connected = false };
    connection = disconnect s.connection;
  }

  -- A frame that cannot be read makes the reader disconnect.
  unfoldable pub read_to : Option Reader → Session N → Option (Session N)
  unfolding drop_connection
  read_to none s = none
  read_to (some r) s =
      some
        (if r.connected then record s { reader = r } else drop_connection (record s { reader = r }))

  -- The reader thread gets these blocks, if it has not ended.
  unfoldable pub received : List Bytes → Session N → Option (Session N)
  unfolding read_to
  received bufs s = if s.reader.connected then read_to (read_blocks bufs s.reader) s else some s

  -- do_write with the reply that it has taken from the queue.
  unfoldable pub answered : Reply → Session N → Bool × Session N
  unfolding drop_connection
  answered reply s =
      let (done, c) = check_receipt reply s.connection in
      let s' = record s {
        reader = record s.reader { m_reply_queue = drop 1 s.reader.m_reply_queue };
        connection = c;
      } in
      (done, if c.m_connected then s' else drop_connection s')

  -- The end of the wait. It has no predicate: if it wakes up for no reason, the front of an empty
  -- queue is undefined; and after a timeout a reply that has come stays in the queue.
  unfoldable pub woken : Bool → Session N → Option (Bool × Session N)
  unfolding answered drop_connection
  woken timed_out s =
      if timed_out then some (false, drop_connection s) else elim (first s.reader.m_reply_queue) [
        | some reply ↦ some (answered reply s)
        | none ↦ none
      ]

  -- From the look into the queue on.
  unfoldable pub waited : Meanwhile → Session N → Option (Bool × Session N)
  unfolding answered received woken
  waited m s = elim (first s.reader.m_reply_queue) [
    | some reply ↦ some (answered reply s)
    | none ↦ elim (received m.waiting s) [ none ↦ none | some s' ↦ woken m.timed_out s' ]
  ]

  -- From the write of the packet on.
  unfoldable pub exchanged :
      Meanwhile → Result (Unit {0}) × Socket N → Session N → Option (Bool × Session N)
  unfolding drop_connection received waited
  exchanged m (throw x, socket) s = some (false, drop_connection (record s { m_socket = socket }))
  exchanged m (ok _, socket) s = elim (received m.before (record s { m_socket = socket })) [
    | none ↦ none
    | some s' ↦ waited m s'
  ]

  unfoldable pub with_connection :
      Session N → Option (Bool × Connection) → Option (Bool × Session N)
  with_connection s none = none
  with_connection s (some (done, c)) = some (done, record s { connection = c })

-- `none` is the end of the program, undefined behaviour, or a loop that has not ended.
module _ {N A : Type 0} (os : System N A) (url : UrlInfo) (order : List Entity) where
  while_connecting : Option (List Bytes) → Session N → Option (Session N)
  unfolding run_connect
  while_connecting none s = some s
  while_connecting (some bufs) s =
      if s.connection.m_connecting && not s.connection.m_connect_thread_done
      then run_connect os url bufs s
      else some s

  -- connect.
  unfoldable pub connect : Option (List Bytes) → Session N → Option (Bool × Session N)
  unfolding while_connecting with_connection
  connect ending s =
      if s.connection.m_connected then some (true, s) else elim (while_connecting ending s) [
        | none ↦ none
        | some s' ↦ with_connection s' (connect_on s'.connection)
      ]

  -- do_write, once there is a connection.
  unfoldable pub write_event : Meanwhile → Sender → LogEvent → Session N → Option (Bool × Session N)
  unfolding packet_for exchanged next_receipt
  write_event m texts e s =
      let n = next_receipt s.connection.m_receipt in
      elim (packet_for order (record texts { m_receipt = n }) e) [
        | none ↦ none
        | some packet ↦
            exchanged m (Tcp.write os packet s.m_socket)
              (record s { connection = record s.connection { m_receipt = n } })
      ]

  unfoldable pub call : Meanwhile → Sender → LogEvent → Session N → Option (Bool × Session N)
  unfolding connect write_event
  call m texts e s = elim (connect m.connect_thread s) [
    | none ↦ none
    | some (false, s') ↦ some (false, s')
    | some (true, s') ↦ write_event m texts e s'
  ]

  -- do_write, from the end of the call before. The texts are those of the constructor.
  unfoldable pub do_write : Meanwhile → Sender → LogEvent → Session N → Option (Bool × Session N)
  unfolding received call
  do_write m texts e s = elim (received m.idle s) [ none ↦ none | some s' ↦ call m texts e s' ]
