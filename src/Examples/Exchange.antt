-- ===== src/Examples/Exchange.antt =====
-- The STOMP sink and a server that answers its packets.
use mathlib.Core.List.{Permᴰ}
use epics_logfile.Base.{
  ℕ, ◌≡◌, refl, true, false, List, [], ◌∷◌, ◌++◌, none, some, Bytes, codes, length, bytes_eq, ok,
  inr,
}
use epics_logfile.Base.Decimal.{decimal}
use epics_logfile.Base.Map.{find, bytes_key}
use epics_logfile.Event.{LogEvent}
use epics_logfile.Level.{severe, info, fine, level_lt, severity}
use epics_logfile.OutputStream.{clears}
use epics_logfile.Tcp
use epics_logfile.Tcp.{
  System, Got, Selected, Socket, new_socket, resolve, and_then, established, connect_first,
  connect_to_ip, sent,
}
use epics_logfile.Stomp.Create.{url_defaults, no_connection}
use epics_logfile.Stomp.Header.{render_frame, render_headers, IsHeader}
use epics_logfile.Stomp.Packet.{Sender, connect_packet}
use epics_logfile.Stomp.Sanitize.{Entity, quot, apos, lt, gt, replacements}
use epics_logfile.Stomp.Stream.{joined}
use epics_logfile.Stomp.Greeting.{Session}
use epics_logfile.Stomp.Exchange.{Meanwhile, next_receipt, do_write}
use epics_logfile.Stomp.Exchange.Taken.{Sends, IsIdle}
use epics_logfile.Stomp.Exchange.Runs.{
  Answers, LateAnswers, AllSent, write_all_delivers, write_all_late,
}
use epics_logfile.Stomp.Exchange.Success.{Success, do_write_ok}
use epics_logfile.Stomp.Exchange.Greeted.{IsConnecting, Greets}
use epics_logfile.Stomp.Sink.Turn.{Delivers, turn-Delivers, write_all_step}
use epics_logfile.Examples.{event}

-- A system that accepts every connection, and keeps all that it is given to send.
abbrev keeping : System Bytes ℕ
keeping = record {
  getaddrinfo = λ host port n. (ok (1 ∷ []), n);
  connect_socket = λ a n. (true, n);
  send = λ bytes n. (some (length bytes), n ++ bytes);
  recv = λ count n. (Got.read_failed, n);
  select = λ timeout n. (Selected.readable, n);
}

keeping-Sends : Sends keeping
keeping-Sends bytes n = refl

abbrev texts : Sender
texts = record {
  m_app_name = codes "ioc";
  m_host = codes "host";
  m_user = codes "user";
  path = codes "LOG";
  m_receipt = 0;
}

abbrev receipt : Bytes → Meanwhile
receipt n = record {
  idle = [];
  connect_thread = none;
  before = [];
  waiting = codes "RECEIPT\nrec" ∷ (codes "eipt-id:" ++ n ++ codes "\n\n" ++ 0 ∷ []) ∷ [];
  timed_out = false;
}

abbrev run : List (LogEvent × Meanwhile)
run = (event info 5, receipt (codes "1")) ∷ (event severe 6, receipt (codes "2")) ∷ []

run-Answers : Answers 0 run
unfolding next_receipt IsHeader render_frame render_headers joined find decimal bytes_eq
run-Answers = (
  refl,
  inr (
    refl,
    ((codes "receipt-id", codes "1") ∷ [], ((refl, refl, refl), tt), refl, refl, refl),
    refl,
  ),
  (
    refl,
    inr (
      refl,
      ((codes "receipt-id", codes "2") ∷ [], ((refl, refl, refl), tt), refl, refl, refl),
      refl,
    ),
    tt,
  ),
)

-- The receipt with the number 0 comes once more, and that of the first packet late.
abbrev late : Bytes → Meanwhile
late n = record (receipt n) { idle = (receipt n).waiting; waiting = [] }

abbrev late_run : List (LogEvent × Meanwhile)
late_run = (event info 5, late (codes "0")) ∷ (event severe 6, late (codes "1")) ∷ []

late_run-LateAnswers : LateAnswers 0 late_run
unfolding next_receipt IsHeader render_frame render_headers joined find decimal bytes_eq
late_run-LateAnswers = (
  ((codes "receipt-id", codes "0") ∷ [], ((refl, refl, refl), tt), refl, refl, refl),
  refl,
  (((codes "receipt-id", codes "1") ∷ [], ((refl, refl, refl), tt), refl, refl, refl), refl, tt),
)

-- A session where nothing waits.
abbrev idle : Session Bytes
idle = record {
  m_socket = record (new_socket [] (codes "amq") 61613) { connected = true };
  reader = record { m_partial_reply = []; m_reply_queue = []; connected = true };
  connection = record no_connection { m_connected = true };
}

idle-IsIdle : IsIdle idle
unfolding new_socket
idle-IsIdle = record {
  connected = refl;
  open_socket = refl;
  reading = refl;
  clear = refl;
  queue = refl;
}

abbrev order : List Entity
order = apos ∷ quot ∷ lt ∷ gt ∷ []

order-Permᴰ : Permᴰ order replacements
order-Permᴰ = Permᴰ.swap refl refl

write_all_late_example : AllSent keeping url_defaults order texts false late_run idle
write_all_late_example =
    write_all_late keeping url_defaults order texts late_run idle order-Permᴰ keeping-Sends
      idle-IsIdle late_run-LateAnswers

-- The first of the calls.
written :
    (s' : Session Bytes) × (do_write keeping url_defaults order
        (receipt (codes "1"))
        texts
        (event info 5)
        idle
      ≡ some (true, s'))
written =
    let (ps, s', made, wrote, socket, holds) =
      write_all_delivers keeping url_defaults order texts run idle order-Permᴰ keeping-Sends
        idle-IsIdle run-Answers in
    let (s1, step, later) =
      write_all_step keeping url_defaults order texts (event info 5) (receipt (codes "1"))
        ((event severe 6, receipt (codes "2")) ∷ []) idle s' wrote in
    (s1, step)

do_write_ok_example :
    Success keeping url_defaults order (receipt (codes "1")) texts (event info 5) idle
do_write_ok_example =
    do_write_ok keeping url_defaults order (receipt (codes "1")) texts (event info 5) idle written.0
      written.1

-- The server's answer to CONNECT.
abbrev greeting : List Bytes
greeting = codes "CONNECTED\nver" ∷ (codes "sion:1.1\n\n" ++ 0 ∷ []) ∷ []

-- connect_thread has been started.
abbrev connecting : Session Bytes
connecting = record {
  m_socket = new_socket [] (codes "amq") 61613;
  reader = record { m_partial_reply = []; m_reply_queue = []; connected = false };
  connection = record no_connection { m_connecting = true; joinable = true };
}

connecting-IsConnecting : IsConnecting connecting
connecting-IsConnecting = record {
  unconnected = refl;
  connecting = refl;
  running = refl;
  clear = refl;
  queue = refl;
}

keeping-Greets : Greets keeping url_defaults greeting connecting.m_socket
unfolding new_socket Tcp.connect resolve and_then established connect_first connect_to_ip Tcp.write
    sent connect_packet IsHeader render_frame render_headers joined find bytes_eq
keeping-Greets = (
  (
    record (new_socket [] (codes "amq") 61613) { connected = true },
    record (new_socket [] (codes "amq") 61613) {
      connected = true;
      net = connect_packet url_defaults;
    },
    refl,
    refl,
  ),
  ((codes "version", codes "1.1") ∷ [], ((refl, refl, refl), tt), refl, refl, refl, refl),
)

-- The first call joins the thread.
abbrev joining : Meanwhile
joining = record (receipt (codes "1")) { connect_thread = some greeting }

-- The minimum holds the second event back.
turn-Delivers_example :
    Delivers keeping url_defaults order texts info 1000
      (event info 5 ∷ event fine 6 ∷ event severe 6 ∷ [])
      greeting
      ((event info 5, joining) ∷ (event severe 6, receipt (codes "2")) ∷ [])
      connecting
unfolding clears level_lt severity
turn-Delivers_example =
    turn-Delivers keeping url_defaults order texts info 1000
      (event info 5 ∷ event fine 6 ∷ event severe 6 ∷ []) greeting (event info 5) joining
      ((event severe 6, receipt (codes "2")) ∷ []) connecting order-Permᴰ keeping-Sends
      connecting-IsConnecting keeping-Greets refl run-Answers refl
