-- ===== src/Stomp/Greeting/Leftover.antt =====
-- The first reply of a server, behind what is left of the connection before.
use epics_logfile.Base.{
  ℕ, suc, ◌≡◌, refl, sym, ap, ◌∙◌, Bool, true, false, ◌&&◌, List, [], ◌∷◌, ◌++◌, append_assoc,
  Option, none, some, Bytes, codes, is_empty, length, bytes_eq, bytes_eq_refl, bytes_eq_iff, ok,
  Lacks, Lacks-append, All, arith, if◌then◌else◌, length-append, inl, inr, Bool-cases,
}
use epics_logfile.Base.Map.{find, bytes_key}
use epics_logfile.ParseUrl.{UrlInfo}
use epics_logfile.Tcp
use epics_logfile.Tcp.{System, Socket}
use epics_logfile.Stomp.Reply.{Reply, parse_frame, check_server_version, parse_heartbeat}
use epics_logfile.Stomp.Header.{render_frame, render_headers, IsHeader, parse_frame-render_frame}
use epics_logfile.Stomp.Reader.{Reader, read_blocks, end_frame, handle_reply}
use epics_logfile.Stomp.Machine.{take_bytes, take_bytes_nil}
use epics_logfile.Stomp.Stream.{
  joined, read_blocks-take_bytes, take_frame, extended, BeginsWithData,
}
use epics_logfile.Stomp.Packet.{connect_packet}
use epics_logfile.Stomp.Connection.{Connection, connect_thread, disconnect}
use epics_logfile.Stomp.Greeting.{Session, on_reply, greeted, reached, run_connect}

-- A server's answer to CONNECT.
abbrev connected_frame : List (Bytes × Bytes) → Bytes
connected_frame headers = render_frame (codes "CONNECTED") headers []

longer : (p s : Bytes) → suc (length (p ++ s)) ≡ length s → ⊥
longer p s h = omega (arith, h, length-append p s)

-- Only an empty text can stand before a text.
bytes_eq-prefix : (p s : Bytes) → bytes_eq (p ++ s) s ≡ is_empty p
bytes_eq-prefix [] s = (bytes_eq_iff s s).1 refl
bytes_eq-prefix (c ∷ p) s = elim (Bool-cases (bytes_eq (c ∷ (p ++ s)) s)) [
  | inr off ↦ off
  | inl on ↦ let same = ap length ((bytes_eq_iff (c ∷ (p ++ s)) s).0 on) in absurd (longer p s same)
]

-- The whole of the answer, behind `p`, is one reply.
answer-parse_frame :
    (p : Bytes) (headers : List (Bytes × Bytes))
    → Lacks b'\n' p
    → All IsHeader headers
    → (reply : Reply) × (parse_frame (p ++ connected_frame headers) ≡ some reply)
      × (reply.command ≡ p ++ codes "CONNECTED")
      × ((k : Bytes) → find k reply.headers ≡ find k headers)
unfolding render_frame
answer-parse_frame p headers l h =
    let command = p ++ codes "CONNECTED" in
    let (reply, read, name, body, values) =
      parse_frame-render_frame command headers [] (Lacks-append b'\n' p (codes "CONNECTED") l refl)
        h in
    (
      reply,
      ap parse_frame (
            sym
              (append_assoc p (codes "CONNECTED") (b'\n' ∷ (render_headers headers ++ b'\n' ∷ []))))
          ∙ read,
      name,
      values,
    )

and-true : (b : Bool) → (b && true) ≡ b
and-true true = refl
and-true false = refl

handle_reply_read :
    (frame : Bytes) (r : Reader) {reply : Reply}
    → parse_frame frame ≡ some reply
    → handle_reply frame r ≡ (true, record r { m_reply_queue = r.m_reply_queue ++ reply ∷ [] })
unfolding handle_reply
handle_reply_read frame r read = rw (read, handle_reply) refl

pub end_frame_read :
    (r : Reader) {reply : Reply}
    → parse_frame r.m_partial_reply ≡ some reply
    → end_frame r ≡ record r { m_partial_reply = []; m_reply_queue = r.m_reply_queue ++ reply ∷ [] }
unfolding end_frame
end_frame_read r {reply} read =
    ap
      (λ (h : Bool × Reader). record h.1 { m_partial_reply = []; connected = h.1.connected && h.0 })
      (handle_reply_read r.m_partial_reply r read)
    ∙ ap
        (λ b. record {
          m_partial_reply = [];
          m_reply_queue = r.m_reply_queue ++ reply ∷ [];
          connected = b;
        })
        (and-true r.connected)

-- The reader takes it as such.
take_answer :
    (r : Reader) (headers : List (Bytes × Bytes)) {reply : Reply}
    → r.connected ≡ true
    → Lacks 0 (connected_frame headers)
    → parse_frame (r.m_partial_reply ++ connected_frame headers) ≡ some reply
    → take_bytes (connected_frame headers ++ 0 ∷ []) r
      ≡ record r { m_partial_reply = []; m_reply_queue = r.m_reply_queue ++ reply ∷ [] }
unfolding render_frame BeginsWithData
take_answer r headers on l read =
    take_frame (connected_frame headers) [] r on l refl
    ∙ take_bytes_nil _
    ∙ end_frame_read (extended (connected_frame headers) r) read

version_checked :
    (reply : Reply)
    → find (codes "version") reply.headers ≡ some (codes "1.1")
    → check_server_version reply ≡ true
unfolding check_server_version
version_checked reply h = rw (h, check_server_version) (bytes_eq_refl (codes "1.1"))

no_heartbeat :
    (reply : Reply) (interval : Bool × ℕ)
    → find (codes "heart-beat") reply.headers ≡ none
    → parse_heartbeat reply interval ≡ (true, (false, 0))
unfolding parse_heartbeat
no_heartbeat reply interval h = rw (h, parse_heartbeat) refl

-- The end of connect_thread, on such a reply.
answered :
    (p : Bytes) (headers : List (Bytes × Bytes)) (reply : Reply) (c : Connection)
    → reply.command ≡ p ++ codes "CONNECTED"
    → ((k : Bytes) → find k reply.headers ≡ find k headers)
    → find (codes "version") headers ≡ some (codes "1.1")
    → find (codes "heart-beat") headers ≡ none
    → ((connect_thread (some reply) c).m_connected ≡ is_empty p)
      × ((connect_thread (some reply) c).m_connect_thread_done ≡ true)
unfolding connect_thread
answered p headers reply c name values version beat =
    let named =
      ap (λ x. bytes_eq x (codes "CONNECTED")) name ∙ bytes_eq-prefix p (codes "CONNECTED") in
    let checked = version_checked reply (values (codes "version") ∙ version) in
    let quiet = no_heartbeat reply c.m_heartbeat_interval (values (codes "heart-beat") ∙ beat) in
    rw (named, checked, quiet)
      (elim (Bool-cases (is_empty p)) [ inl e ↦ rw e (refl, refl) | inr e ↦ rw e (refl, refl) ])

connect_thread-m_connecting :
    (reply : Option Reply) (c : Connection) → (connect_thread reply c).m_connecting ≡ c.m_connecting
unfolding connect_thread disconnect
connect_thread-m_connecting none c = refl
connect_thread-m_connecting (some reply) c = ground arith

connect_thread-m_receipt :
    (reply : Option Reply) (c : Connection) → (connect_thread reply c).m_receipt ≡ c.m_receipt
unfolding connect_thread disconnect
connect_thread-m_receipt none c = refl
connect_thread-m_receipt (some reply) c = ground arith

if_true : (b : Bool) → (if b then true else false) ≡ b
if_true true = refl
if_true false = refl

module _ {N A : Type 0} (os : System N A) (url : UrlInfo) where
  -- The packet can be sent over a new connection.
  abbrev pub Reaches : Socket N → Type 0
  Reaches s =
      (s' : Socket N) × (s'' : Socket N) × (Tcp.connect os s ≡ (ok tt, s'))
      × (Tcp.write os (connect_packet url) s' ≡ (ok tt, s''))

  write-connected :
      (packet : Bytes) (s s' : Socket N) → Tcp.write os packet s ≡ (ok tt, s') → s'.connected ≡ true
  unfolding Tcp.write
  write-connected packet s s' h = ground (arith, h)

  kept_open :
      (on : Bool) (s : Socket N)
      → s.connected ≡ true
      → (if on then s else Tcp.disconnect s).connected ≡ on
  unfolding Tcp.disconnect
  kept_open true s h = h
  kept_open false s h = refl

  greeted_read :
      (bufs : List Bytes) (u : Socket N) (s : Session N) {r : Reader}
      → read_blocks bufs (record s.reader { connected = true }) ≡ some r
      → greeted os url bufs (ok tt, u) s
        ≡ some (
            on_reply os url
              (record s { m_socket = if r.connected then u else Tcp.disconnect u; reader = r }))
  unfolding greeted
  greeted_read bufs u s h = rw (h, greeted) refl

  -- A server that can be reached, and whose system takes the whole CONNECT packet, answers it with
  -- version 1.1 and no heartbeats, in whatever blocks, before the wait ends. The queue of replies is
  -- empty, and m_partial_reply, which is not cleared between connections, has a text `p` without a
  -- line feed. Then connect_thread ends with a connection, the socket open and the reader reading,
  -- exactly if `p` is empty; no part of a reply and no reply is left, in both cases.
  pub run_connect_lem :
      (bufs : List Bytes) (headers : List (Bytes × Bytes)) (p : Bytes) (s : Session N)
      → Reaches s.m_socket
      → s.reader.m_partial_reply ≡ p
      → s.reader.m_reply_queue ≡ []
      → Lacks b'\n' p
      → All IsHeader headers
      → Lacks 0 (connected_frame headers)
      → find (codes "version") headers ≡ some (codes "1.1")
      → find (codes "heart-beat") headers ≡ none
      → joined bufs ≡ connected_frame headers ++ 0 ∷ []
      → (s' : Session N) × (run_connect os url bufs s ≡ some s')
        × (s'.connection.m_connected ≡ is_empty p)
        × (s'.connection.m_connect_thread_done ≡ true)
        × (s'.reader.m_partial_reply ≡ [])
        × (s'.reader.m_reply_queue ≡ [])
        × (s'.reader.connected ≡ is_empty p)
        × (s'.m_socket.connected ≡ is_empty p)
        × (s'.connection.m_connecting ≡ s.connection.m_connecting)
        × (s'.connection.m_receipt ≡ s.connection.m_receipt)
  unfolding run_connect reached on_reply
  run_connect_lem bufs headers p s (t, u, up, sent) left queue l h z version beat all =
      let (reply, read, name, values) = answer-parse_frame p headers l h in
      let r = record s.reader { connected = true } in
      let here = ap parse_frame (ap (λ x. x ++ connected_frame headers) left) ∙ read in
      let r' = record r { m_partial_reply = []; m_reply_queue = reply ∷ [] } in
      let blocks : read_blocks bufs r ≡ some r' =
        read_blocks-take_bytes bufs r
        ∙ ap (λ x. some (take_bytes x r)) all
        ∙ ap some (take_answer r headers refl z here)
        ∙ ap (λ q. some (record r { m_partial_reply = []; m_reply_queue = q ++ reply ∷ [] }))
            queue in
      let (on, done) = answered p headers reply s.connection name values version beat in
      (
        on_reply os url (record s { m_socket = u; reader = r' }),
        ap (λ x. reached os url bufs x s) up
            ∙ ap (λ x. greeted os url bufs x s) sent
            ∙ greeted_read bufs u s blocks,
        on,
        done,
        refl,
        refl,
        if_true (connect_thread (some reply) s.connection).m_connected ∙ on,
        kept_open (connect_thread (some reply) s.connection).m_connected u
              (write-connected (connect_packet url) t u sent)
            ∙ on,
        connect_thread-m_connecting (some reply) s.connection,
        connect_thread-m_receipt (some reply) s.connection,
      )
