-- ===== src/Tcp/Ssl/Stale.antt =====
-- disconnect leaves m_ssl_active as it is (tcp_client_socket.cpp:244).
use epics_logfile.Base.{
  ◌≡◌, refl, ap, ◌∙◌, true, List, [], ◌∷◌, ◌++◌, none, some, codes, if◌then◌else◌, Result, ok,
  throw, Exception, runtime_error, arith,
}
use epics_logfile.Tcp
use epics_logfile.Tcp.{
  System, Socket, hello, and_then, write, sent, exchange, start_socks, resolve, established,
  connect_first, connect_to_ip,
}
use epics_logfile.Tcp.Connect.{connect_first_reaches}
use epics_logfile.Tcp.Ssl.{OpenSsl, SslSocket, disconnect, then_ssl, over, connect}

abbrev pub write_error : Exception
write_error = runtime_error (codes "Write failed.")

module _ {N A : Type 0} (os : System N A) where
  connect_first-m_use_socks :
      (addresses : List A) (s : Socket N)
      → (connect_first os addresses s).m_use_socks ≡ s.m_use_socks
  unfolding connect_first connect_to_ip
  connect_first-m_use_socks [] s = refl
  connect_first-m_use_socks (a ∷ rest) s =
      ground (arith, connect_first-m_use_socks rest (connect_to_ip os a s).1)

  write_fails :
      (s : Socket N)
      → s.connected ≡ true
      → (os.send hello s.net).0 ≡ none
      → (write os hello s).0 ≡ throw write_error
  unfolding write sent
  write_fails s on h = ground (arith, on, h)

  and_then_throw :
      {X Y : Type 0} (m : Result X × Socket N) (f : X → Socket N → Result Y × Socket N)
      (e : Exception)
      → m.0 ≡ throw e
      → (and_then m f).0 ≡ throw e
  unfolding and_then
  and_then_throw (throw x, s) f e h = ground (arith, h)
  and_then_throw (ok x, s) f e h = ground (arith, h)

  start_socks_fails :
      (s : Socket N)
      → s.connected ≡ true
      → (os.send hello s.net).0 ≡ none
      → (start_socks os s).0 ≡ throw write_error
  unfolding start_socks exchange
  start_socks_fails s on h =
      and_then_throw (exchange os hello 2 s) _ write_error
        (and_then_throw (write os hello s) _ write_error (write_fails s on h))

  established_fails :
      (s : Socket N)
      → s.connected ≡ true
      → s.m_use_socks ≡ true
      → (os.send hello s.net).0 ≡ none
      → (established os s).0 ≡ throw write_error
  unfolding established
  established_fails s on socks h = ground (arith, on, socks, start_socks_fails s on h)

  resolve_found :
      (s : Socket N) {found : Result (List A) × N}
      → s.m_use_socks ≡ true
      → os.getaddrinfo s.m_socks_host s.m_socks_port s.net ≡ found
      → resolve os s ≡ (found.0, record s { net = found.1 })
  unfolding resolve
  resolve_found s {found} socks h =
      ap
        (λ b.
          let (x, net) =
            if b
            then os.getaddrinfo s.m_socks_host s.m_socks_port s.net
            else os.getaddrinfo s.m_host s.m_port s.net in
          (x, record s { net = net }))
        socks
      ∙ ap (λ x. (x.0, record s { net = x.1 })) h

  connect_fails :
      (s : Socket N) (before after : List A) (address : A) (n : N)
      → s.m_use_socks ≡ true
      → os.getaddrinfo s.m_socks_host s.m_socks_port s.net ≡ (ok (before ++ address ∷ after), n)
      → ((m : N) → (os.connect_socket address m).0 ≡ true)
      → ((m : N) → (os.send hello m).0 ≡ none)
      → (Tcp.connect os s).0 ≡ throw write_error
  unfolding Tcp.connect and_then
  connect_fails s before after address n socks found reaches dead =
      let at = record s { net = n } in
      let last = connect_first os (before ++ address ∷ after) at in
      ap (λ m. (and_then m (λ addresses t. established os (connect_first os addresses t))).0)
        (resolve_found s socks found)
      ∙ established_fails last (connect_first_reaches os before after address at reaches)
          (connect_first-m_use_socks (before ++ address ∷ after) at ∙ socks) (dead last.net)

then_ssl_throw :
    {N : Type 0} (ssl : OpenSsl N) (r : Result (Unit {0})) (t : Socket N) (s : SslSocket N)
    → r ≡ throw write_error
    → (s' : SslSocket N) × (then_ssl ssl (r, t) s ≡ some (throw write_error, s'))
unfolding then_ssl
then_ssl_throw ssl (throw x) t s h = (record s { socket = t }, ground (arith, h))
then_ssl_throw ssl (ok u) t s h = ground (arith, h)

module _ {N A : Type 0} (ssl : OpenSsl N) (os : System N A) where
  -- A socket that had an SSL session is disconnected, and connected again through a SOCKS service
  -- that can be reached. If the old session takes no more data, connect throws: the handshake with
  -- the service is written to it, whatever the system's own send would do.
  pub connect_stale :
      (s : SslSocket N) (before after : List A) (address : A) (n : N)
      → s.m_ssl_active ≡ true
      → s.socket.m_use_socks ≡ true
      → os.getaddrinfo s.socket.m_socks_host s.socket.m_socks_port s.socket.net
        ≡ (ok (before ++ address ∷ after), n)
      → ((m : N) → (os.connect_socket address m).0 ≡ true)
      → ((m : N) → (ssl.ssl_write hello m).0 ≡ none)
      → (s' : SslSocket N) × (connect ssl os (disconnect s) ≡ some (throw write_error, s'))
  unfolding connect over disconnect Tcp.disconnect
  connect_stale s before after address n active socks found reaches dead =
      let closed = disconnect s in
      let old = over ssl closed.m_ssl_active os in
      let fails =
        connect_fails old closed.socket before after address n socks found reaches (λ m.
          ap (λ b. (if b then ssl.ssl_write hello m else os.send hello m).0) active ∙ dead m) in
      then_ssl_throw ssl (Tcp.connect old closed.socket).0 (Tcp.connect old closed.socket).1 closed
        fails
