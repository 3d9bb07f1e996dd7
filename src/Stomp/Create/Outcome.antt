-- ===== src/Stomp/Create/Outcome.antt =====
-- What the constructor of output_stream_stomp gives: a connecting stream, or an exception.
use mathlib.Core.List.{Permᴰ}
use epics_logfile.Base.{
  ◌≡◌, ◌⊎◌, refl, ap, ◌∙◌, inl, inr, Bool, true, false, List, Option, Option-cases, none, some,
  Bytes, codes, bytes_eq, bytes_eq_iff, ◌≢◌, Result, ok, throw, Exception, invalid_argument, Lacks,
  arith, Bool-cases,
}
use epics_logfile.ParseUrl.{UrlInfo, parse_url}
use epics_logfile.Tcp.{new_socket}
use epics_logfile.Stomp.Sanitize.{Entity, replacements}
use epics_logfile.Stomp.Escape.{escape, sanitize_string-escape}
use epics_logfile.Stomp.Packet.{escape-Lacks}
use epics_logfile.Stomp.Connection.{connect, start_thread}
use epics_logfile.Stomp.Create.{
  Stomp, url_defaults, no_connection, select_protocol, known_name, create_with, create_for,
  create_parsed, new_stomp,
}

known_name-Lacks :
    (order : List Entity) (name : Option Bytes)
    → Permᴰ order replacements
    → (text : Bytes) × (known_name order name ≡ some text) × Lacks 0 text
unfolding known_name
known_name-Lacks order none p = (codes "/UNKNOWN/", refl, refl)
known_name-Lacks order (some name) p =
    (escape name, sanitize_string-escape order name p, escape-Lacks name)

-- What select_protocol accepts.
abbrev Protocol : Bool → Bytes → Bool → Type 0
Protocol openssl protocol ssl =
    ((protocol ≡ codes "stomp") × (ssl ≡ false))
    ⊎ ((protocol ≡ codes "stomp+ssl") × (ssl ≡ true) × (openssl ≡ true))

ne : (a b : Bytes) → bytes_eq a b ≡ false → a ≢ b
ne a b h = ground (arith, bytes_eq_iff a b)

select_protocol_lem :
    (openssl : Bool) (protocol : Bytes)
    → ((ssl : Bool) × (select_protocol openssl protocol ≡ ok ssl) × Protocol openssl protocol ssl)
      ⊎ ((what : Bytes) × (select_protocol openssl protocol ≡ throw (invalid_argument what))
          × (protocol ≢ codes "stomp")
          × ((openssl ≡ true) → protocol ≢ codes "stomp+ssl"))
unfolding select_protocol
select_protocol_lem openssl protocol = elim (Bool-cases (bytes_eq protocol (codes "stomp"))) [
  | inl plain ↦
      inl (false, rw plain refl, inl ((bytes_eq_iff protocol (codes "stomp")).0 plain, refl))
  | inr other ↦ elim (Bool-cases openssl) [
    | inr off ↦ inr (
      codes "Only stomp protocol is supported.",
      ground (arith, other, off),
      ne protocol (codes "stomp") other,
      λ on. ground (arith, on, off),
    )
    | inl on ↦ elim (Bool-cases (bytes_eq protocol (codes "stomp+ssl"))) [
      | inl secure ↦ inl (
        true,
        ground (arith, other, on, secure),
        inr ((bytes_eq_iff protocol (codes "stomp+ssl")).0 secure, refl, on),
      )
      | inr none_such ↦ inr (
        codes "Only stomp and stomp+ssl protocols are supported.",
        ground (arith, other, on, none_such),
        ne protocol (codes "stomp") other,
        λ h. ne protocol (codes "stomp+ssl") none_such,
      )
    ]
  ]
]

pair_eq : {A B : Type 0} (r : A × B) {b : B} → r.1 ≡ b → r ≡ (r.0, b)
pair_eq (a, c) h = ap (λ x. (a, x)) h

module _ {N : Type 0} (net : N) (order : List Entity) (openssl : Bool)
    (hostname user : Option Bytes) where
  abbrev made : UrlInfo → Bool → Bytes → Bytes → Bytes → Stomp N
  made url ssl app host name = record {
    m_stomp_url = url;
    sender = record {
      m_app_name = app;
      m_host = host;
      m_user = name;
      path = url.path;
      m_receipt = 0;
    };
    m_socket = new_socket net url.host url.port;
    m_use_ssl = ssl;
    connection = record no_connection { m_connecting = true; joinable = true };
  }

  create_for-ok :
      (url : UrlInfo) (app : Bytes) (ssl : Bool) {host name : Bytes}
      → known_name order hostname ≡ some host
      → known_name order user ≡ some name
      → create_for net order openssl hostname user url app (ok ssl)
        ≡ some (ok (made url ssl app host name))
  unfolding create_for create_with connect start_thread
  create_for-ok url app ssl eh en = rw (eh, en, create_for) refl

  new_stomp-parsed :
      (app_name url_text : Bytes)
      → Permᴰ order replacements
      → new_stomp net order openssl hostname user app_name url_text
        ≡ create_parsed net order openssl hostname user
            (escape app_name)
            (parse_url url_text url_defaults)
  unfolding new_stomp
  new_stomp-parsed app_name url_text p =
      rw (sanitize_string-escape order app_name p, new_stomp) refl

module _ {N : Type 0} (net : N) (order : List Entity) (openssl : Bool)
    (hostname user : Option Bytes) (app_name url_text : Bytes) where
  abbrev created : Option (Result (Stomp N))
  created = new_stomp net order openssl hostname user app_name url_text

  -- The texts have no NUL, and the first connection is under way to the host and the port.
  abbrev pub Created : Type 0
  Created =
      (s : Stomp N) × (created ≡ some (ok s))
      × (parse_url url_text url_defaults ≡ (s.m_stomp_url, none))
      × Protocol openssl s.m_stomp_url.protocol s.m_use_ssl
      × (s.m_socket ≡ new_socket net s.m_stomp_url.host s.m_stomp_url.port)
      × (s.sender.path ≡ s.m_stomp_url.path)
      × Lacks 0 s.sender.m_app_name
      × Lacks 0 s.sender.m_host
      × Lacks 0 s.sender.m_user
      × (s.connection.m_connecting ≡ true)
      × (s.connection.joinable ≡ true)

  -- The URL is refused by parse_URL, or for its protocol.
  abbrev pub Refused : Type 0
  Refused =
      (url : UrlInfo) × (x : Exception) × (created ≡ some (throw x))
      × ((parse_url url_text url_defaults ≡ (url, some x))
          ⊎ ((parse_url url_text url_defaults ≡ (url, none))
              × (url.protocol ≢ codes "stomp")
              × ((openssl ≡ true) → url.protocol ≢ codes "stomp+ssl")))

  -- The constructor ends. It throws if parse_URL does, or if the protocol is neither stomp nor, with
  -- OpenSSL, stomp+ssl. Otherwise the parts of the URL are the defaults changed by parse_URL, the
  -- socket is for their host and port, SSL is used for stomp+ssl, the sanitized texts have no NUL,
  -- and a thread has been started to connect.
  pub new_stomp_lem : Permᴰ order replacements → Created ⊎ Refused
  unfolding create_parsed
  new_stomp_lem p =
      let url = (parse_url url_text url_defaults).0 in
      let parsed = new_stomp-parsed net order openssl hostname user app_name url_text p in
      let on = λ (r : UrlInfo × Option Exception).
        create_parsed net order openssl hostname user (escape app_name) r in
      elim (Option-cases (parse_url url_text url_defaults).1) [
        | inr (x, bad) ↦
            let at = pair_eq (parse_url url_text url_defaults) bad in
            inr (url, x, parsed ∙ ap on at, inl at)
        | inl good ↦
            let at = pair_eq (parse_url url_text url_defaults) good in
            elim (select_protocol_lem openssl url.protocol) [
              | inr (what, refused, not_stomp, not_ssl) ↦ inr (
                url,
                invalid_argument what,
                parsed
                    ∙ ap on at
                    ∙ ap (create_for net order openssl hostname user url (escape app_name)) refused,
                inr (at, not_stomp, not_ssl),
              )
              | inl (ssl, accepted, which) ↦
                  let (host, eh, lh) = known_name-Lacks order hostname p in
                  let (name, en, ln) = known_name-Lacks order user p in
                  inl (
                    made net order openssl hostname user url ssl (escape app_name) host name,
                    parsed
                        ∙ ap on at
                        ∙ ap (create_for net order openssl hostname user url (escape app_name))
                            accepted
                        ∙ create_for-ok net order openssl hostname user url (escape app_name) ssl eh
                            en,
                    at,
                    which,
                    refl,
                    refl,
                    escape-Lacks app_name,
                    lh,
                    ln,
                    refl,
                    refl,
                  )
            ]
      ]
