-- ===== src/Tcp/Ssl.antt =====
-- use_SSL, init_OpenSSL, start_SSL and the branches of the other functions under OPENSSL_FOUND
-- (tcp_client_socket.cpp). OpenSSL is a parameter.
pub mod Session
pub mod Stale
use epics_logfile.Base.{
  ℕ, Bool, true, false, ◌&&◌, ◌||◌, Option, none, some, Bytes, codes, if◌then◌else◌, Result, ok,
  throw, Exception, runtime_error,
}
use epics_logfile.Tcp
use epics_logfile.Tcp.{System, Got, Selected, Socket}

-- What ::SSL_get_verify_result gives: X509_V_OK, one of the two codes for self-signed certificates,
-- or another code, with its text.
pub data Verified : Type 0 where
  verified : Verified
  depth_zero_self_signed self_signed_in_chain other_error : Bytes → Verified

-- OpenSSL's functions, on the same state as the system. SSL_write gives the number of bytes taken,
-- if it does not fail; a null certificate is `false` of has_certificate.
pub record OpenSsl (N : Type 0) : Type 0 where
  pub library_init : N → Bool × N
  pub new_context : N → Bool × N
  pub handshake : N → Bool × N
  pub has_certificate : N → Bool
  pub verify_result : N → Verified
  pub pending : N → Bool
  pub ssl_write : Bytes → N → Option ℕ × N
  pub ssl_read : ℕ → N → Option Bytes × N

-- tcs_private with the members for SSL.
pub record SslSocket (N : Type 0) : Type 0 where
  pub socket : Socket N
  pub m_use_ssl : Bool
  pub m_ssl_active : Bool
  pub m_ssl_self_signed_ok : Bool

got_or_failed : Option Bytes → Got
got_or_failed none = Got.ssl_read_failed
got_or_failed (some bytes) = Got.got bytes

-- The verify_result that start_SSL accepts.
unfoldable pub accepts : Bool → Verified → Result (Unit {0})
accepts self_signed_ok Verified.verified = ok tt
accepts self_signed_ok (Verified.depth_zero_self_signed what) =
    if self_signed_ok then ok tt else throw (runtime_error what)
accepts self_signed_ok (Verified.self_signed_in_chain what) =
    if self_signed_ok then ok tt else throw (runtime_error what)
accepts self_signed_ok (Verified.other_error what) = throw (runtime_error what)

module _ {N : Type 0} where
  use_ssl : Bool → SslSocket N → SslSocket N
  use_ssl self_signed_ok s = record s { m_use_ssl = true; m_ssl_self_signed_ok = self_signed_ok }

  -- disconnect: m_ssl_active stays.
  unfoldable pub disconnect : SslSocket N → SslSocket N
  disconnect s = record s { socket = Tcp.disconnect s.socket }

  -- The socket with a new state of the system.
  unfoldable pub moved : N → SslSocket N → SslSocket N
  moved n s = record s { socket = record s.socket { net = n } }

module _ {N : Type 0} (ssl : OpenSsl N) where
  -- From the handshake on; `none` is the use of a null certificate.
  unfoldable pub check_peer : SslSocket N → Option (Result (Unit {0}) × SslSocket N)
  unfolding accepts moved
  check_peer s =
      let (done, n) = ssl.handshake s.socket.net in
      if done
      then (if ssl.has_certificate n
          then (elim (accepts s.m_ssl_self_signed_ok (ssl.verify_result n)) [
            | throw x ↦ some (throw x, moved n s)
            | ok _ ↦ some (ok tt, record (moved n s) { m_ssl_active = true })
          ])
          else none)
      else some (throw (runtime_error (codes "Could not establish SSL session.")), moved n s)

  -- start_SSL, init_OpenSSL included.
  unfoldable pub start_ssl : SslSocket N → Option (Result (Unit {0}) × SslSocket N)
  unfolding check_peer moved
  start_ssl s =
      let (initialised, n) = ssl.library_init s.socket.net in
      if initialised
      then (let (made, n') = ssl.new_context n in
          if made
          then check_peer (moved n' s)
          else some (throw (runtime_error (codes "Could not create SSL context.")), moved n' s))
      else some (throw (runtime_error (codes "Failed to initialize OpenSSL.")), moved n s)

  unfoldable pub then_ssl :
      Result (Unit {0}) × Socket N → SslSocket N → Option (Result (Unit {0}) × SslSocket N)
  unfolding start_ssl
  then_ssl (throw x, socket) s = some (throw x, record s { socket = socket })
  then_ssl (ok _, socket) s =
      if s.m_use_ssl
      then start_ssl (record s { socket = socket })
      else some (ok tt, record s { socket = socket })

module _ {N A : Type 0} (ssl : OpenSsl N) where
  -- The calls of write, read and select_read, if m_ssl_active is as given.
  unfoldable pub over : Bool → System N A → System N A
  unfolding got_or_failed
  over active os = record os {
    send = λ bytes n. if active then ssl.ssl_write bytes n else os.send bytes n;
    recv = λ count n.
        if active
        then (let (r, n') = ssl.ssl_read count n in (got_or_failed r, n'))
        else os.recv count n;
    select = λ timeout n.
        if active && ssl.pending n then (Selected.readable, n) else os.select timeout n;
  }

  -- connect.
  unfoldable pub connect : System N A → SslSocket N → Option (Result (Unit {0}) × SslSocket N)
  unfolding over then_ssl
  connect os s = then_ssl ssl (Tcp.connect (over s.m_ssl_active os) s.socket) s

  -- write, read and select_read.
  unfoldable pub write : System N A → Bytes → SslSocket N → Result (Unit {0}) × SslSocket N
  unfolding over
  write os bytes s =
      let (r, socket) = Tcp.write (over s.m_ssl_active os) bytes s.socket in
      (r, record s { socket = socket })

  unfoldable pub read : System N A → ℕ → SslSocket N → Result Bytes × SslSocket N
  unfolding over
  read os n s =
      let (r, socket) = Tcp.read (over s.m_ssl_active os) n s.socket in
      (r, record s { socket = socket })

  unfoldable pub select_read : System N A → ℕ → SslSocket N → Result Bool × SslSocket N
  unfolding over
  select_read os timeout s =
      let (r, socket) = Tcp.select_read (over s.m_ssl_active os) timeout s.socket in
      (r, record s { socket = socket })
