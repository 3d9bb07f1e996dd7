-- ===== src/Tcp.antt =====
-- tcp_client_socket.h, tcs_private.h, tcp_client_socket.cpp: the connection to a server, directly or
-- through a SOCKS service. Ssl has what is added where OPENSSL_FOUND is defined.
pub mod Socks
pub mod Connect
pub mod Ssl
use epics_logfile.Base.{
  ℕ, ◌+◌, ◌/◌, ◌%◌, ◌^◌, Bool, true, false, not, ◌&&◌, ◌||◌, List, [], ◌∷◌, ◌++◌, Option, none,
  some, Bytes, codes, length, take, drop, replicate, is_empty, ltb, ◌==◌, if◌then◌else◌, Result, ok,
  throw, Exception, runtime_error, invalid_argument,
}
use epics_logfile.Base.Map.{find, nat_key}

-- What ::select reports for the one descriptor: an error, a timeout, the descriptor in a set, one
-- descriptor in none, or more than one.
pub data Selected : Type 0 where
  failed timed_out readable exceptional unexplained several : Selected

-- What a read gives: an error of ::read, one of ::SSL_read, or bytes.
pub data Got : Type 0 where
  read_failed ssl_read_failed : Got
  got : Bytes → Got

-- The operating system, with a state `N` and addresses `A`. `send` gives the number of bytes taken,
-- if it does not fail; a throw of getaddrinfo is an error with its text.
pub record System (N A : Type 0) : Type 0 where
  pub getaddrinfo : Bytes → ℕ → N → Result (List A) × N
  pub connect_socket : A → N → Bool × N
  pub send : Bytes → N → Option ℕ × N
  pub recv : ℕ → N → Got × N
  pub select : ℕ → N → Selected × N

-- tcs_private, with the state of the system. m_socket is INVALID_SOCKET if `connected` is false.
pub record Socket (N : Type 0) : Type 0 where
  pub m_host : Bytes
  pub m_port : ℕ
  pub m_use_socks : Bool
  pub m_socks_host : Bytes
  pub m_socks_port : ℕ
  pub connected : Bool
  pub net : N

unfoldable pub sent : ℕ → Option ℕ → Result (Unit {0})
sent n none = throw (runtime_error (codes "Write failed."))
sent n (some m) = if m == n then ok tt else throw (runtime_error (codes "Write failed."))

-- The buffer was filled with zeros; what has been read stands at its front.
unfoldable pub received : ℕ → Got → Result Bytes
received n Got.read_failed = throw (runtime_error (codes "Read failed."))
received n Got.ssl_read_failed = throw (runtime_error (codes "SSL_read failed."))
received n (Got.got bytes) = ok (bytes ++ drop (length bytes) (replicate n 0))

unfoldable pub selected : Selected → Result Bool
selected Selected.failed = throw (runtime_error (codes "Select failed."))
selected Selected.timed_out = ok false
selected Selected.readable = ok true
selected Selected.exceptional = throw (runtime_error (codes "Exception on the socket."))
selected Selected.unexplained = throw (runtime_error (codes "Cannot find what ended select."))
selected Selected.several = throw (runtime_error (codes "Cannot understand the result of select."))

module _ {N : Type 0} where
  unfoldable pub new_socket : N → Bytes → ℕ → Socket N
  new_socket net host port = record {
    m_host = host;
    m_port = port;
    m_use_socks = false;
    m_socks_host = [];
    m_socks_port = 0;
    connected = false;
    net = net;
  }

  unfoldable pub use_socks : Bytes → ℕ → Socket N → Socket N
  use_socks host port s =
      if is_empty host
      then record s { m_use_socks = false }
      else record s { m_use_socks = true; m_socks_host = host; m_socks_port = port }

  unfoldable pub disconnect : Socket N → Socket N
  disconnect s = record s { connected = false }

  -- A call that may throw, and the one after it.
  unfoldable pub and_then {ℓ} :
      {X Y : Type ℓ}
      → Result X × Socket N
      → (X → Socket N → Result Y × Socket N)
      → Result Y × Socket N
  and_then (ok x, s) f = f x s
  and_then (throw e, s) f = (throw e, s)

module _ {N A : Type 0} where
  unfoldable pub write : System N A → Bytes → Socket N → Result (Unit {0}) × Socket N
  unfolding sent
  write os data_ s =
      if s.connected
      then (let (n, net) = os.send data_ s.net in (sent (length data_) n, record s { net = net }))
      else (throw (runtime_error (codes "Not connected")), s)

  -- read, into an array of `n` zeros: the array afterwards. Its callers ignore the count.
  unfoldable pub read : System N A → ℕ → Socket N → Result Bytes × Socket N
  unfolding received
  read os n s =
      if s.connected
      then (let (r, net) = os.recv n s.net in (received n r, record s { net = net }))
      else (throw (runtime_error (codes "Not connected.")), s)

  -- A timeout of 0 waits without end.
  unfoldable pub select_read : System N A → ℕ → Socket N → Result Bool × Socket N
  unfolding selected
  select_read os timeout_us s =
      if s.connected
      then (let (r, net) = os.select timeout_us s.net in (selected r, record s { net = net }))
      else (throw (runtime_error (codes "Not connected.")), s)

abbrev socks_messages : List (ℕ × Bytes)
socks_messages =
    (0, codes "succeeded")
    ∷ (1, codes "general SOCKS server failure")
    ∷ (2, codes "connection not allowed by ruleset")
    ∷ (3, codes "Network unreachable")
    ∷ (4, codes "Host unreachable")
    ∷ (5, codes "Connection refused")
    ∷ (6, codes "TTL expired")
    ∷ (7, codes "Command not supported")
    ∷ (8, codes "Address type not supported")
    ∷ []

-- The element of an array.
abbrev pub at : Bytes → ℕ → ℕ
at s i = elim (drop i s) [ [] ↦ 0 | x ∷ xs ↦ x ]

abbrev pub hello : Bytes
hello = 5 ∷ 1 ∷ 0 ∷ []

unfoldable pub check_version : Bytes → Result (Unit {0})
check_version version_select =
    if not (at version_select 0 == 5) || not (at version_select 1 == 0)
    then throw (runtime_error (codes "SOCKS handshake failed."))
    else ok tt

-- The request for the connection; std::uint8_t keeps 8 bits.
unfoldable pub socks_request : Bytes → ℕ → Bytes
socks_request host port =
    5 ∷ 1 ∷ 0 ∷ 3 ∷ (length host % 2 ^ 8) ∷ (host ++ (port / 2 ^ 8 % 2 ^ 8) ∷ (port % 2 ^ 8) ∷ [])

socks_error : ℕ → Exception
unfolding find
socks_error code = elim (find code socks_messages) [
  | some message ↦ runtime_error message
  | none ↦ runtime_error (codes "Unknown SOCKS error")
]

-- The last part of start_SOCKS.
unfoldable pub check_reply : Bytes → Result (Unit {0})
unfolding socks_error
check_reply connect_reply =
    if not (at connect_reply 0 == 5) || not (at connect_reply 2 == 0)
    then throw (runtime_error (codes "SOCKS handshake failed."))
    else if not (at connect_reply 1 == 0)
    then throw (socks_error (at connect_reply 2))
    else ok tt

unfoldable pub check_host : Bytes → Result (Unit {0})
check_host host =
    if ltb 255 (length host)
    then throw (invalid_argument (codes "host name too long for SOCKS request."))
    else ok tt

module _ {N A : Type 0} (os : System N A) where
  -- start_SOCKS writes, waits and reads.
  unfoldable pub exchange : Bytes → ℕ → Socket N → Result Bytes × Socket N
  unfolding and_then write select_read read
  exchange data_ n s =
      and_then (write os data_ s) (λ _ s. and_then (select_read os 0 s) (λ _ s. read os n s))

  unfoldable pub start_socks : Socket N → Result (Unit {0}) × Socket N
  unfolding exchange and_then check_version check_host socks_request check_reply
  start_socks s = and_then (exchange hello 2 s) (λ version s.
      and_then (check_version version, s)
        (λ _ s.
          and_then (check_host s.m_host, s)
            (λ _ s.
              and_then (exchange (socks_request s.m_host s.m_port) 10 s)
                (λ reply s. (check_reply reply, s)))))

  -- connect_to_ip.
  unfoldable pub connect_to_ip : A → Socket N → Bool × Socket N
  connect_to_ip address s =
      let (done, net) = os.connect_socket address s.net in
      (done, record s { connected = done; net = net })

  -- The first address that can be connected to.
  unfoldable pub connect_first : List A → Socket N → Socket N
  unfolding connect_to_ip
  connect_first [] s = s
  connect_first (address ∷ rest) s =
      let (done, s') = connect_to_ip address s in
      let later = connect_first rest s' in if done then s' else later

  unfoldable pub resolve : Socket N → Result (List A) × Socket N
  resolve s =
      let (found, net) =
        if s.m_use_socks
        then os.getaddrinfo s.m_socks_host s.m_socks_port s.net
        else os.getaddrinfo s.m_host s.m_port s.net in
      (found, record s { net = net })

  unfoldable pub established : Socket N → Result (Unit {0}) × Socket N
  unfolding start_socks
  established s =
      if s.connected
      then (if s.m_use_socks then start_socks s else (ok tt, s))
      else (throw (runtime_error (codes "Could not connect.")), s)

  unfoldable pub connect : Socket N → Result (Unit {0}) × Socket N
  unfolding resolve and_then established connect_first
  connect s = and_then (resolve s) (λ addresses s. established (connect_first addresses s))
