-- ===== src/Examples/Server.antt =====
-- The STOMP sink from its constructor to the first answer of a server.
use mathlib.Core.List.{Permᴰ}
use epics_logfile.Base.{
  bytes_eq, throw, ℕ, ◌≡◌, ◌⊎◌, refl, true, false, List, [], ◌∷◌, ◌++◌, none, some, Bytes, codes,
  is_empty, length, ok,
}
use epics_logfile.Base.Map.{find, bytes_key}
use epics_logfile.Stomp.Create.{url_defaults, no_connection}
use epics_logfile.Stomp.Create.Outcome.{Created, Refused, new_stomp_lem}
use epics_logfile.Stomp.Header.{render_frame, render_headers, IsHeader}
use epics_logfile.Stomp.Sanitize.{Entity, quot, apos, lt, gt, replacements}
use epics_logfile.Stomp.Stream.{joined}
use epics_logfile.Stomp.Packet.{connect_packet}
use epics_logfile.Stomp.Greeting.{Session, run_connect}
use epics_logfile.Stomp.Greeting.Leftover.{Reaches, run_connect_lem}
use epics_logfile.Stomp.Reader.{Reader}
use epics_logfile.Stomp.Timeout.{reader_rounds}
use epics_logfile.Stomp.Timeout.Rounds.{Reads, reader_rounds-Reads}
use epics_logfile.Tcp.Ssl
use epics_logfile.Tcp.Ssl.{
  OpenSsl, SslSocket, Verified, over, then_ssl, start_ssl, check_peer, accepts, moved,
}
use epics_logfile.Tcp.Ssl.Session.{Connected, connect-Connected}
use epics_logfile.Tcp.Ssl.Stale.{write_error, connect_stale}
use epics_logfile.Tcp
use epics_logfile.Tcp.{
  System, Got, Selected, Socket, new_socket, resolve, and_then, established, connect_first,
  connect_to_ip, use_socks, sent,
}

abbrev order : List Entity
order = apos ∷ quot ∷ lt ∷ gt ∷ []

order-Permᴰ : Permᴰ order replacements
order-Permᴰ = Permᴰ.swap refl refl

new_stomp_lem_example :
    Created tt order true
      (some (codes "host<1>"))
      none
      (codes "ioc")
      (codes "stomp://amq:61614/LOG")
    ⊎ Refused tt order true
        (some (codes "host<1>"))
        none
        (codes "ioc")
        (codes "stomp://amq:61614/LOG")
new_stomp_lem_example =
    new_stomp_lem tt order true (some (codes "host<1>")) none (codes "ioc")
      (codes "stomp://amq:61614/LOG") order-Permᴰ

-- A system that accepts every connection and sends everything.
abbrev system : System (Unit {0}) ℕ
system = record {
  getaddrinfo = λ host port n. (ok (1 ∷ []), n);
  connect_socket = λ a n. (true, n);
  send = λ data_ n. (some (length data_), n);
  recv = λ count n. (Got.read_failed, n);
  select = λ timeout n. (Selected.readable, n);
}

-- The connection before has left the beginning of a reply.
abbrev session : Session (Unit {0})
session = record {
  m_socket = new_socket tt (codes "amq") 61613;
  reader = record { m_partial_reply = codes "RECEI"; m_reply_queue = []; connected = false };
  connection = record no_connection { m_connecting = true; joinable = true };
}

abbrev headers : List (Bytes × Bytes)
headers = (codes "version", codes "1.1") ∷ []

abbrev blocks : List Bytes
blocks = codes "CONN" ∷ (codes "ECTED\nversion:1.1\n\n" ++ 0 ∷ []) ∷ []

system-Reaches : Reaches system url_defaults session.m_socket
unfolding new_socket Tcp.connect resolve and_then established connect_first connect_to_ip Tcp.write
    sent connect_packet
system-Reaches = (
  record (new_socket tt (codes "amq") 61613) { connected = true },
  record (new_socket tt (codes "amq") 61613) { connected = true },
  refl,
  refl,
)

run_connect_lem_example :
    (s' : Session (Unit {0})) × (run_connect system url_defaults blocks session ≡ some s')
    × (s'.connection.m_connected ≡ is_empty (codes "RECEI"))
    × (s'.connection.m_connect_thread_done ≡ true)
    × (s'.reader.m_partial_reply ≡ [])
    × (s'.reader.m_reply_queue ≡ [])
    × (s'.reader.connected ≡ is_empty (codes "RECEI"))
    × (s'.m_socket.connected ≡ is_empty (codes "RECEI"))
    × (s'.connection.m_connecting ≡ session.connection.m_connecting)
    × (s'.connection.m_receipt ≡ session.connection.m_receipt)
unfolding IsHeader render_frame render_headers find joined bytes_eq
run_connect_lem_example =
    run_connect_lem system url_defaults blocks headers (codes "RECEI") session system-Reaches refl
      refl refl ((refl, refl, refl), tt) refl refl refl refl

-- The thread reads the answer in two blocks, and a last read fails.
abbrev feeding : System (List Bytes) ℕ
feeding = record {
  getaddrinfo = λ host port n. (ok (1 ∷ []), n);
  connect_socket = λ a n. (true, n);
  send = λ data_ n. (some (length data_), n);
  recv = λ count n. elim n [ [] ↦ (Got.read_failed, []) | b ∷ bs ↦ (Got.got b, bs) ];
  select = λ timeout n. (Selected.readable, n);
}

abbrev reader : Reader
reader = record { m_partial_reply = []; m_reply_queue = []; connected = true }

abbrev feed : Socket (List Bytes)
feed = record (new_socket blocks (codes "amq") 61613) { connected = true }

reader_rounds-Reads_example :
    Reads feeding 3 reader feed.net (reader_rounds feeding false (λ k. 0) 3 reader false feed)
unfolding new_socket
reader_rounds-Reads_example = reader_rounds-Reads feeding false (λ k. 0) 3 reader false feed refl

-- OpenSSL with a self-signed peer, whose session takes no data.
abbrev openssl : OpenSsl (Unit {0})
openssl = record {
  library_init = λ n. (true, n);
  new_context = λ n. (true, n);
  handshake = λ n. (true, n);
  has_certificate = λ n. true;
  verify_result = λ n. Verified.depth_zero_self_signed (codes "self signed certificate");
  pending = λ n. false;
  ssl_write = λ bytes n. (none, n);
  ssl_read = λ count n. (none, n);
}

abbrev ssl_socket : SslSocket (Unit {0})
ssl_socket = record {
  socket = new_socket tt (codes "amq") 61614;
  m_use_ssl = true;
  m_ssl_active = false;
  m_ssl_self_signed_ok = true;
}

abbrev secured : SslSocket (Unit {0})
secured = record ssl_socket {
  socket = record (new_socket tt (codes "amq") 61614) { connected = true };
  m_ssl_active = true;
}

connect-Connected_example : Connected openssl ssl_socket secured
unfolding Ssl.connect over then_ssl start_ssl check_peer accepts moved Tcp.connect resolve and_then
    established connect_first connect_to_ip new_socket
connect-Connected_example = connect-Connected openssl system ssl_socket secured refl

-- The same socket behind a SOCKS service.
abbrev behind_socks : SslSocket (Unit {0})
behind_socks = record secured { socket = use_socks (codes "gate") 1080 secured.socket }

connect_stale_example :
    (s' : SslSocket (Unit {0})) × (Ssl.connect openssl system (Ssl.disconnect behind_socks)
      ≡ some (throw write_error, s'))
unfolding use_socks new_socket
connect_stale_example =
    connect_stale openssl system behind_socks [] [] 1 tt refl refl refl (λ m. refl) (λ m. refl)
