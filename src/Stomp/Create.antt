-- ===== src/Stomp/Create.antt =====
-- The constructor of output_stream_stomp. What the system says of the host and the user, `none` if
-- it says nothing, are parameters; `openssl` is OPENSSL_FOUND.
pub mod Outcome
use mathlib.Core.List.{Permᴰ}
use epics_logfile.Base.{
  ◌≡◌, ◌⊎◌, refl, ap, ◌∙◌, inl, inr, Bool, true, false, List, [], Option, Option-cases, none, some,
  Bytes, codes, bytes_eq, bytes_eq_iff, ◌≢◌, if◌then◌else◌, Result, ok, throw, Exception,
  invalid_argument, Lacks, arith, Bool-cases,
}
use epics_logfile.ParseUrl.{UrlInfo, parse_url}
use epics_logfile.Tcp.{Socket, new_socket}
use epics_logfile.Stomp.Sanitize.{Entity, replacements, sanitize_string}
use epics_logfile.Stomp.Escape.{escape, sanitize_string-escape}
use epics_logfile.Stomp.Packet.{Sender, escape-Lacks}
use epics_logfile.Stomp.Connection.{Connection, connect, start_thread}

-- The members that the constructor sets; m_use_ssl is tcs_private's.
pub record Stomp (N : Type 0) : Type 0 where
  pub m_stomp_url : UrlInfo
  pub sender : Sender
  pub m_socket : Socket N
  pub m_use_ssl : Bool
  pub connection : Connection

-- The defaults of the URL; the other parts are empty.
abbrev pub url_defaults : UrlInfo
url_defaults = record {
  protocol = codes "stomp";
  login = [];
  password = [];
  host = [];
  port = 61613;
  path = codes "LOG";
}

-- The initial values of the members that belong to the connection.
abbrev pub no_connection : Connection
no_connection = record {
  m_connected = false;
  m_connecting = false;
  m_connect_thread_done = false;
  joinable = false;
  m_receipt = 0;
  m_heartbeat_interval = (false, 0);
}

-- Is SSL to be used, or is the protocol refused?
select_protocol : Bool → Bytes → Result Bool
select_protocol openssl protocol =
    if bytes_eq protocol (codes "stomp")
    then ok false
    else if openssl
    then (if bytes_eq protocol (codes "stomp+ssl")
        then ok true
        else throw (invalid_argument (codes "Only stomp and stomp+ssl protocols are supported.")))
    else throw (invalid_argument (codes "Only stomp protocol is supported."))

-- m_host and m_user; the outer `none` means that a loop of sanitize_string has not ended.
known_name : List Entity → Option Bytes → Option Bytes
unfolding sanitize_string
known_name order none = some (codes "/UNKNOWN/")
known_name order (some name) = sanitize_string order name

module _ {N : Type 0} (net : N) (order : List Entity) (openssl : Bool)
    (hostname user : Option Bytes) where
  -- From the sanitized texts on: connect starts the thread.
  create_with : UrlInfo → Bool → Bytes → Option Bytes → Option Bytes → Option (Stomp N)
  unfolding connect new_socket
  create_with url ssl app_name none m_user = none
  create_with url ssl app_name (some m_host) none = none
  create_with url ssl app_name (some m_host) (some m_user) = elim (connect none no_connection) [
    | none ↦ none
    | some (done, c) ↦ some (record {
      m_stomp_url = url;
      sender = record {
        m_app_name = app_name;
        m_host = m_host;
        m_user = m_user;
        path = url.path;
        m_receipt = 0;
      };
      m_socket = new_socket net url.host url.port;
      m_use_ssl = ssl;
      connection = c;
    })
  ]

  -- From the parsed URL on.
  create_for : UrlInfo → Bytes → Result Bool → Option (Result (Stomp N))
  unfolding create_with known_name
  create_for url app_name (throw x) = some (throw x)
  create_for url app_name (ok ssl) =
      elim (create_with url ssl app_name (known_name order hostname) (known_name order user)) [
        | none ↦ none
        | some s ↦ some (ok s)
      ]

  create_parsed : Bytes → UrlInfo × Option Exception → Option (Result (Stomp N))
  unfolding create_for select_protocol
  create_parsed app_name (url, some x) = some (throw x)
  create_parsed app_name (url, none) =
      create_for url app_name (select_protocol openssl url.protocol)

  -- The constructor.
  unfoldable pub new_stomp : Bytes → Bytes → Option (Result (Stomp N))
  unfolding create_parsed parse_url
  new_stomp app_name url_text = elim (sanitize_string order app_name) [
    | none ↦ none
    | some m_app_name ↦ create_parsed m_app_name (parse_url url_text url_defaults)
  ]
