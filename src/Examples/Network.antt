-- ===== src/Examples/Network.antt =====
-- The STOMP connection and the socket.
use epics_logfile.Base.{
  ℕ, ◌≡◌, refl, Bool, true, false, List, [], ◌∷◌, ◌++◌, none, some, Bytes, codes, bytes_eq, length,
  if◌then◌else◌, ok, throw, runtime_error, ◌==◌, arith,
}
use epics_logfile.Base.Map.{find, bytes_key}
use epics_logfile.Stomp.Reply.{Reply, check_server_version, parse_heartbeat, parse_frame}
use epics_logfile.Stomp.Header.{render_frame, IsHeader, parse_frame-render_frame}
use epics_logfile.Stomp.Reader.{Reader, read_blocks}
use epics_logfile.Stomp.Machine.{take_bytes}
use epics_logfile.Stomp.Stream.{joined, read_blocks-take_bytes}
use epics_logfile.Stomp.Connection.Laws.{connect-IsWellFormed}
use epics_logfile.Stomp.Connection.{Connection, connect, connect_thread}
use epics_logfile.Stomp.Create.{no_connection}
use epics_logfile.Tcp.{
  System, Got, Selected, Socket, new_socket, at, hello, check_host, socks_request, check_reply,
  exchange, start_socks, and_then, write, read, select_read, check_version, sent, received,
  selected,
}
use epics_logfile.Tcp.Socks.{
  read_request, read_request-socks_request, start_socks_ok, check_reply_refused,
}

abbrev headers : List (Bytes × Bytes)
headers = (codes "version", codes "1.1") ∷ (codes "version", codes "1.0") ∷ []

parse_frame-render_frame_example :
    (reply : Reply) × (parse_frame (render_frame (codes "CONNECTED") headers (codes "body"))
      ≡ some reply)
    × (reply.command ≡ codes "CONNECTED")
    × (reply.body ≡ codes "body")
    × ((k : Bytes) → find k reply.headers ≡ find k headers)
unfolding IsHeader
parse_frame-render_frame_example =
    parse_frame-render_frame (codes "CONNECTED") headers (codes "body") refl
      ((refl, refl, refl), ((refl, refl, refl), tt))

-- A heartbeat, and a frame in two blocks.
abbrev blocks : List Bytes
blocks = (10 ∷ codes "RECEI") ∷ (codes "PT\n\n" ++ 0 ∷ []) ∷ []

abbrev reader : Reader
reader = record { m_partial_reply = []; m_reply_queue = []; connected = true }

read_blocks-take_bytes_example :
    read_blocks blocks reader ≡ some (take_bytes (joined blocks) reader)
read_blocks-take_bytes_example = read_blocks-take_bytes blocks reader

-- A thread tries to connect.
abbrev trying : Connection
trying = record {
  m_connected = false;
  m_connecting = true;
  m_connect_thread_done = false;
  joinable = true;
  m_receipt = 41;
  m_heartbeat_interval = (false, 0);
}

connect-IsWellFormed_example :
    (done : Bool) × (c' : Connection) × (connect (some none) trying ≡ some (done, c'))
    × (c'.joinable ≡ c'.m_connecting)
    × (done ≡ c'.m_connected)
connect-IsWellFormed_example = connect-IsWellFormed (some none) trying refl

-- The first connect of a sink has started the thread, which is then greeted.
abbrev begun : Connection
begun = record no_connection { m_connecting = true; joinable = true }

abbrev welcome : Reply
welcome = record {
  command = codes "CONNECTED";
  headers = (codes "version", codes "1.1") ∷ [];
  body = [];
}

welcomed : (connect_thread (some welcome) begun).m_connected ≡ true
unfolding connect_thread check_server_version parse_heartbeat find bytes_eq
welcomed = refl

abbrev receipt : Reply
receipt = record {
  command = codes "RECEIPT";
  headers = (codes "receipt-id", codes "41") ∷ [];
  body = [];
}

-- A system that accepts every connection, sends everything, and reads what its state holds next.
abbrev next : List Bytes → Got × List Bytes
next [] = (Got.read_failed, [])
next (b ∷ bs) = (Got.got b, bs)

abbrev system : System (List Bytes) ℕ
system = record {
  getaddrinfo = λ host port n. (ok (1 ∷ 2 ∷ []), n);
  connect_socket = λ a n. (a == 2, n);
  send = λ data_ n. (some (length data_), n);
  recv = λ count n. next n;
  select = λ timeout n. (Selected.readable, n);
}

-- What the service answers.
abbrev answers : List Bytes
answers = (5 ∷ 0 ∷ []) ∷ (5 ∷ 0 ∷ 0 ∷ 1 ∷ 0 ∷ 0 ∷ 0 ∷ 0 ∷ 0 ∷ 0 ∷ []) ∷ []

abbrev socket : Socket (List Bytes)
socket = record (new_socket answers (codes "host.org") 61613) { connected = true }

start_socks_ok_example :
    (version : Bytes) × (s₁ : Socket (List Bytes)) × (reply : Bytes) × (s₂ : Socket (List Bytes))
    × (exchange system hello 2 socket ≡ (ok version, s₁))
    × ((at version 0 ≡ 5) × (at version 1 ≡ 0))
    × (check_host s₁.m_host ≡ ok tt)
    × (exchange system (socks_request s₁.m_host s₁.m_port) 10 s₁ ≡ (ok reply, s₂))
    × ((at reply 0 ≡ 5) × (at reply 1 ≡ 0) × (at reply 2 ≡ 0))
unfolding start_socks exchange and_then write select_read read check_version check_host check_reply
    socks_request selected sent received new_socket
start_socks_ok_example = start_socks_ok system socket refl

read_request-socks_request_example :
    read_request (socks_request (codes "host.org") 61613) ≡ some (codes "host.org", 61613)
unfolding check_host
read_request-socks_request_example =
    read_request-socks_request (codes "host.org") 61613 refl (omega arith)

check_reply_refused_example :
    check_reply (5 ∷ 4 ∷ 0 ∷ [])
    ≡ (if at (5 ∷ 4 ∷ 0 ∷ []) 1 == 0 then ok tt else throw (runtime_error (codes "succeeded")))
check_reply_refused_example = check_reply_refused (5 ∷ 4 ∷ 0 ∷ []) refl refl
