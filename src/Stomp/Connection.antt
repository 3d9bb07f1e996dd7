-- ===== src/Stomp/Connection.antt =====
-- connect, disconnect, connect_thread's end and do_write: the state of the connection. What the
-- socket and the reader thread do in between is given with each call.
pub mod Laws
pub mod Destroy
use epics_logfile.Base.{
  ℕ, ◌%◌, ◌^◌, ◌+◌, ◌≡◌, ◌⊎◌, inl, inr, refl, ap, ◌∙◌, sym, subst, Bool, true, false, not, ◌&&◌,
  Option, none, some, Bytes, codes, bytes_eq, bytes_eq_iff, if◌then◌else◌, arith, Bool-cases,
  Option-cases,
}
use epics_logfile.Base.Decimal.{decimal}
use epics_logfile.Base.Map.{find, bytes_key}
use epics_logfile.Stomp.Reply.{Reply, check_server_version, parse_heartbeat}

-- `joinable` is that of m_connect_thread.
pub record Connection : Type 0 where
  pub m_connected : Bool
  pub m_connecting : Bool
  pub m_connect_thread_done : Bool
  pub joinable : Bool
  pub m_receipt : ℕ
  pub m_heartbeat_interval : Bool × ℕ

unfoldable pub disconnect : Connection → Connection
disconnect c = record c { m_connected = false }

-- connect_thread from the reply on; `none` stands for a timeout of the wait, a failed connection or
-- a failed write.
unfoldable pub connect_thread : Option Reply → Connection → Connection
unfolding disconnect check_server_version parse_heartbeat
connect_thread none c = record (disconnect c) { m_connect_thread_done = true }
connect_thread (some reply) c =
    let version = check_server_version reply in
    let (accepted, interval) = parse_heartbeat reply c.m_heartbeat_interval in
    if bytes_eq reply.command (codes "CONNECTED") && version
    then (if accepted
        then record c {
          m_connected = true;
          m_connect_thread_done = true;
          m_heartbeat_interval = interval;
        }
        else record c {
          m_connected = false;
          m_connect_thread_done = true;
          m_heartbeat_interval = interval;
        })
    else record c { m_connected = false; m_connect_thread_done = true }

-- A new thread in m_connect_thread: std::thread ends the program, `none`, if the old one has not
-- been joined.
unfoldable pub start_thread : Connection → Option (Bool × Connection)
start_thread c =
    if c.joinable
    then none
    else some
        (false, record c { m_connecting = true; m_connect_thread_done = false; joinable = true })

-- What a running connect thread does between two reads of the state, if it ends there.
unfoldable pub between : Option (Option Reply) → Connection → Connection
unfolding connect_thread
between none c = c
between (some reply) c =
    if c.m_connecting && not c.m_connect_thread_done then connect_thread reply c else c

-- connect behind its first test, which has found that there is no connection.
unfoldable pub connect_on : Connection → Option (Bool × Connection)
unfolding start_thread
connect_on c =
    if c.m_connecting
    then (if c.m_connect_thread_done
        then some (c.m_connected, record c { m_connecting = false; joinable = false })
        else some (false, c))
    else start_thread c

-- connect; `ending` is what the thread does behind the first test.
unfoldable pub connect : Option (Option Reply) → Connection → Option (Bool × Connection)
unfolding connect_on between
connect ending c = if c.m_connected then some (true, c) else connect_on (between ending c)

-- The end of do_write, with the reply that it takes from the queue.
receipt_id : Option Bytes → Connection → Bool × Connection
receipt_id none c = (false, disconnect c)
receipt_id (some id) c = (bytes_eq (decimal c.m_receipt) id, c)

unfoldable pub check_receipt : Reply → Connection → Bool × Connection
unfolding disconnect receipt_id
check_receipt reply c =
    if bytes_eq reply.command (codes "RECEIPT")
    then receipt_id (find (codes "receipt-id") reply.headers) c
    else (false, disconnect c)

-- do_write from the packet on: does the write succeed, and the reply, if one comes in time.
unfoldable pub await_receipt : Bool → Option Reply → Connection → Bool × Connection
unfolding disconnect check_receipt
await_receipt false reply c = (false, disconnect c)
await_receipt true none c = (false, disconnect c)
await_receipt true (some reply) c = check_receipt reply c

unfoldable pub do_write :
    Option (Option Reply) → Bool → Option Reply → Connection → Option (Bool × Connection)
unfolding connect await_receipt
do_write ending written reply c = elim (connect ending c) [
  | none ↦ none
  | some (false, c') ↦ some (false, c')
  | some (true, c') ↦
      some (await_receipt written reply (record c' { m_receipt = (c'.m_receipt + 1) % 2 ^ 32 }))
]

-- retry_time.
unfoldable pub retry_time : Connection → ℕ
retry_time c = if c.m_connecting then 2 else 30
