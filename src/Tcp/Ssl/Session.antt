-- ===== src/Tcp/Ssl/Session.antt =====
-- What a connection with SSL means, and what becomes of it after disconnect.
use epics_logfile.Base.{
  ◌≡◌, ◌⊎◌, refl, sym, ap, subst, ◌∙◌, inl, inr, Bool, true, false, some, Bytes, Result, ok, throw,
  arith, Bool-cases, Result-cases,
}
use epics_logfile.Tcp
use epics_logfile.Tcp.{System, Got, Selected, Socket}
use epics_logfile.Tcp.Connect.{connect_ok}
use epics_logfile.Tcp.Ssl.{
  Verified, OpenSsl, SslSocket, accepts, moved, check_peer, start_ssl, then_ssl, over, connect,
}

-- The certificate is valid, or self-signed where that is accepted.
abbrev Trusted : Bool → Verified → Type 0
Trusted self_signed_ok v =
    (v ≡ Verified.verified)
    ⊎ ((self_signed_ok ≡ true)
        × (what : Bytes) × ((v ≡ Verified.depth_zero_self_signed what)
            ⊎ (v ≡ Verified.self_signed_in_chain what)))

accepts-Trusted : (b : Bool) (v : Verified) → accepts b v ≡ ok tt → Trusted b v
unfolding accepts
accepts-Trusted b Verified.verified h = inl refl
accepts-Trusted true (Verified.depth_zero_self_signed what) h = inr (refl, what, inl refl)
accepts-Trusted false (Verified.depth_zero_self_signed what) h = cc
accepts-Trusted true (Verified.self_signed_in_chain what) h = inr (refl, what, inr refl)
accepts-Trusted false (Verified.self_signed_in_chain what) h = cc
accepts-Trusted b (Verified.other_error what) h = cc

module _ {N : Type 0} (ssl : OpenSsl N) where
  -- An SSL session with a trusted peer, over the connection that was there.
  abbrev Secured : SslSocket N → SslSocket N → Type 0
  Secured s s' =
      (s'.m_ssl_active ≡ true)
      × (ssl.has_certificate s'.socket.net ≡ true)
      × Trusted s.m_ssl_self_signed_ok (ssl.verify_result s'.socket.net)
      × (s'.socket.connected ≡ s.socket.connected)

  check_peer-Secured : (s s' : SslSocket N) → check_peer ssl s ≡ some (ok tt, s') → Secured s s'
  unfolding check_peer moved
  check_peer-Secured s s' h = elim (Bool-cases (ssl.handshake s.socket.net).0) [
    | inr failed ↦ ground (arith, h, failed)
    | inl done ↦ elim (Bool-cases (ssl.has_certificate (ssl.handshake s.socket.net).1)) [
      | inr no_cert ↦ ground (arith, h, done, no_cert)
      | inl cert ↦
          elim (Result-cases
            (accepts s.m_ssl_self_signed_ok (ssl.verify_result (ssl.handshake s.socket.net).1))) [
              | inr (x, refused) ↦ ground (arith, h, done, cert, refused)
              | inl (u, accepted) ↦
                  let n = (ssl.handshake s.socket.net).1 in
                  let same : record (moved n s) { m_ssl_active = true } ≡ s' =
                    ground (arith, h, done, cert, accepted) in
                  subst (Secured s) same (
                    refl,
                    cert,
                    accepts-Trusted s.m_ssl_self_signed_ok (ssl.verify_result n) accepted,
                    refl,
                  )
            ]
    ]
  ]

  start_ssl-Secured : (s s' : SslSocket N) → start_ssl ssl s ≡ some (ok tt, s') → Secured s s'
  unfolding start_ssl moved
  start_ssl-Secured s s' h =
      let n = (ssl.library_init s.socket.net).1 in
      let n' = (ssl.new_context n).1 in
      elim (Bool-cases (ssl.library_init s.socket.net).0) [
        | inr failed ↦ ground (arith, h, failed)
        | inl initialised ↦ elim (Bool-cases (ssl.new_context n).0) [
          | inr failed ↦ ground (arith, h, initialised, failed)
          | inl made ↦ check_peer-Secured (moved n' s) s' (ground (arith, h, initialised, made))
        ]
      ]

  -- What connect has come to.
  abbrev pub Connected : SslSocket N → SslSocket N → Type 0
  Connected s s' =
      (s'.socket.connected ≡ true)
      × ((s.m_use_ssl ≡ false)
          ⊎ ((s'.m_ssl_active ≡ true)
              × (ssl.has_certificate s'.socket.net ≡ true)
              × Trusted s.m_ssl_self_signed_ok (ssl.verify_result s'.socket.net)))

  then_ssl-Connected :
      (r : Result (Unit {0})) (t : Socket N) (s s' : SslSocket N)
      → (r ≡ ok tt → t.connected ≡ true)
      → then_ssl ssl (r, t) s ≡ some (ok tt, s')
      → Connected s s'
  unfolding then_ssl
  then_ssl-Connected (throw x) t s s' on h = ground (arith, h)
  then_ssl-Connected (ok _) t s s' on h = elim (Bool-cases s.m_use_ssl) [
    | inr plain ↦
        let same : record s { socket = t } ≡ s' = ground (arith, h, plain) in
        (ap (λ x. x.socket.connected) (sym same) ∙ on refl, inl plain)
    | inl secure ↦
        let done : start_ssl ssl (record s { socket = t }) ≡ some (ok tt, s') =
          ground (arith, h, secure) in
        let (active, cert, trusted, same) = start_ssl-Secured (record s { socket = t }) s' done in
        (same ∙ on refl, inr (active, cert, trusted))
  ]

module _ {N A : Type 0} (ssl : OpenSsl N) (os : System N A) where
  -- connect returns without an exception only with a connection, and, if SSL was asked for, only
  -- with an SSL session whose peer has shown a certificate that is valid, or self-signed where
  -- use_SSL has allowed that.
  pub connect-Connected :
      (s s' : SslSocket N) → connect ssl os s ≡ some (ok tt, s') → Connected ssl s s'
  unfolding connect
  connect-Connected s s' h =
      let plain = over ssl s.m_ssl_active os in
      then_ssl-Connected ssl (Tcp.connect plain s.socket).0 (Tcp.connect plain s.socket).1 s s'
        (λ reached. connect_ok plain s.socket reached) h
