-- ===== src/Stomp/Timeout.antt =====
-- read_with_timeout, and the loop of reader_thread over it. `workaround` is AMQ_4710_workaround. With
-- SSL, the system is the one that Tcp.Ssl.over makes.
pub mod Calls
pub mod Rounds
use epics_logfile.Base.{
  ℕ, zero, suc, Bool, true, false, not, ◌&&◌, ◌||◌, [], ◌∷◌, Option, none, some, Bytes, codes,
  is_empty, length, if◌then◌else◌, Result, ok, throw, Exception, runtime_error,
}
use epics_logfile.Tcp
use epics_logfile.Tcp.{System, Got, Socket, select_read}
use epics_logfile.Stomp.Reader.{Reader, start_of_data, read_block}

-- tcp_client_socket::read with its count: the bytes read.
bytes_read : Got → Result Bytes
bytes_read Got.read_failed = throw (runtime_error (codes "Read failed."))
bytes_read Got.ssl_read_failed = throw (runtime_error (codes "SSL_read failed."))
bytes_read (Got.got bytes) = ok bytes

-- One pass through read_with_timeout: nothing came in time, -1 after an exception, or the bytes.
pub data Attempt : Type 0 where
  nothing failed : Attempt
  bytes : Bytes → Attempt

module _ {N A : Type 0} (os : System N A) where
  fetch : ℕ → Socket N → Result Bytes × Socket N
  unfolding bytes_read
  fetch len s =
      if s.connected
      then (let (r, net) = os.recv len s.net in (bytes_read r, record s { net = net }))
      else (throw (runtime_error (codes "Not connected.")), s)

  -- The exceptions are all std::runtime_error; the handler disconnects the socket.
  fetched : Result Bytes × Socket N → Attempt × Socket N
  fetched (throw x, s) = (Attempt.failed, Tcp.disconnect s)
  fetched (ok b, s) = (Attempt.bytes b, s)

  waited : ℕ → Result Bool × Socket N → Attempt × Socket N
  unfolding fetch fetched
  waited len (throw x, s) = (Attempt.failed, Tcp.disconnect s)
  waited len (ok false, s) = (Attempt.nothing, s)
  waited len (ok true, s) = fetched (fetch len s)

  attempt : ℕ → ℕ → Socket N → Attempt × Socket N
  unfolding waited
  attempt len timeout_us s = waited len (select_read os timeout_us s)

  read_once : Bool → Attempt × Socket N → Option Bytes × Bool × Socket N
  read_once last (Attempt.nothing, s) = (none, last, s)
  read_once last (Attempt.failed, s) = (none, last, s)
  read_once last (Attempt.bytes b, s) = (some b, last, s)

  -- After data, a second wait, if the first has given nothing.
  read_twice : Bool → ℕ → ℕ → Bool → Attempt × Socket N → Option Bytes × Bool × Socket N
  unfolding attempt read_once
  read_twice workaround len timeout_us last (Attempt.nothing, s) =
      if workaround && last then read_once false (attempt len timeout_us s) else (none, last, s)
  read_twice workaround len timeout_us last (Attempt.failed, s) = (none, last, s)
  read_twice workaround len timeout_us last (Attempt.bytes b, s) = (some b, last, s)

  -- read_with_timeout: the bytes, `none` for -1, and m_last_was_data.
  read_with_timeout : Bool → ℕ → ℕ → Bool → Socket N → Option Bytes × Bool × Socket N
  unfolding attempt read_twice
  read_with_timeout workaround len timeout_us last s =
      read_twice workaround len timeout_us last (attempt len timeout_us s)

  closed_unless : Bool → Socket N → Socket N
  closed_unless on s = if on then s else Tcp.disconnect s

  -- A round of reader_thread, with what read_with_timeout has given; `go` is the next round.
  -- `bytesLeft <= 0` ends the thread. The result is the reader, m_last_was_data, the socket, and
  -- whether the thread has ended.
  on_read :
      (Reader → Bool → Socket N → Option (Reader × Bool × Socket N × Bool))
      → Reader
      → Option Bytes × Bool × Socket N
      → Option (Reader × Bool × Socket N × Bool)
  unfolding closed_unless read_block start_of_data
  on_read go r (none, last, s) = some (r, last, Tcp.disconnect s, true)
  on_read go r (some [], last, s) = some (r, last, Tcp.disconnect s, true)
  on_read go r (some (c ∷ cs), last, s) = elim (read_block (suc (suc (length cs))) (c ∷ cs) r) [
    | none ↦ none
    | some r' ↦
        go r' (last || not (is_empty (start_of_data r.m_partial_reply (c ∷ cs))))
          (closed_unless r'.connected s)
  ]

  -- reader_thread, for at most so many rounds. `timeout` is the timeout of a round, which
  -- m_heartbeat_interval decides, that connect_thread may change meanwhile.
  unfoldable pub reader_rounds :
      Bool → (ℕ → ℕ) → ℕ → Reader → Bool → Socket N → Option (Reader × Bool × Socket N × Bool)
  unfolding read_with_timeout on_read
  reader_rounds workaround timeout zero r last s = some (r, last, s, false)
  reader_rounds workaround timeout (suc k) r last s =
      on_read (reader_rounds workaround timeout k) r
        (read_with_timeout workaround 1536 (timeout k) last s)
