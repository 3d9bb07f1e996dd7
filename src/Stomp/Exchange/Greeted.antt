-- ===== src/Stomp/Exchange/Greeted.antt =====
-- From the connection to the events: connect_thread and then do_write, to a server that answers.
use mathlib.Core.List.{Permᴰ}
use epics_logfile.Base.{
  ◌≡◌, refl, sym, ap, subst, ◌∙◌, Bool, true, false, not, ◌&&◌, List, [], ◌∷◌, ◌++◌, Option, none,
  some, Bytes, codes, map, Lacks, All, if◌then◌else◌,
}
use epics_logfile.Base.Map.{find, bytes_key}
use epics_logfile.Event.{LogEvent}
use epics_logfile.ParseUrl.{UrlInfo}
use epics_logfile.Tcp.{System, Socket}
use epics_logfile.Stomp.Sanitize.{Entity, replacements}
use epics_logfile.Stomp.Header.{render_frame, IsHeader}
use epics_logfile.Stomp.Stream.{joined}
use epics_logfile.Stomp.Packet.{Sender}
use epics_logfile.Stomp.Connection.{Connection, connect_on}
use epics_logfile.Stomp.Greeting.{Session, run_connect}
use epics_logfile.Stomp.Greeting.Leftover.{Reaches, run_connect_lem}
use epics_logfile.Stomp.Exchange.{
  Meanwhile, while_connecting, with_connection, connect, received, call, do_write,
}
use epics_logfile.Stomp.Exchange.Taken.{Sends, IsIdle, received_nothing}
use epics_logfile.Stomp.Exchange.Answered.{connect_connected, do_write_idle}
use epics_logfile.Stomp.Exchange.Runs.{write_all, Answers, packets, send_all, write_all_delivers}

-- connect_thread has been started, and has not ended. Nothing is left of a connection before.
pub record IsConnecting {N : Type 0} (s : Session N) : Type 0 where
  pub unconnected : s.connection.m_connected ≡ false
  pub connecting : s.connection.m_connecting ≡ true
  pub running : s.connection.m_connect_thread_done ≡ false
  pub clear : s.reader.m_partial_reply ≡ []
  pub queue : s.reader.m_reply_queue ≡ []

-- The server can be reached, and the blocks are its answer to CONNECT: version 1.1, no heartbeats.
abbrev pub Greets : {N A : Type 0} → System N A → UrlInfo → List Bytes → Socket N → Type 0
Greets os url bufs t =
    Reaches os url t
    × ((headers : List (Bytes × Bytes)) × All IsHeader headers
        × Lacks 0 (render_frame (codes "CONNECTED") headers [])
        × (find (codes "version") headers ≡ some (codes "1.1"))
        × (find (codes "heart-beat") headers ≡ none)
        × (joined bufs ≡ render_frame (codes "CONNECTED") headers [] ++ 0 ∷ []))

connect_on_done :
    (c : Connection)
    → c.m_connecting ≡ true
    → c.m_connect_thread_done ≡ true
    → connect_on c ≡ some (c.m_connected, record c { m_connecting = false; joinable = false })
unfolding connect_on
connect_on_done c on done = rw (on, connect_on) (rw done refl)

module _ {N A : Type 0} (os : System N A) (url : UrlInfo) (order : List Entity) where
  -- connect joins the thread, and there is a connection.
  connect_greeted :
      (bufs : List Bytes) (s : Session N)
      → IsConnecting s
      → Greets os url bufs s.m_socket
      → (s1 : Session N) × (connect os url order (some bufs) s ≡ some (true, s1))
        × IsIdle s1
        × (s1.connection.m_receipt ≡ s.connection.m_receipt)
  unfolding connect while_connecting with_connection
  connect_greeted bufs s k (reaches, (headers, ok, free, version, beat, all)) =
      let (s', run, on, done, clear, queue, reading, socket, connecting, receipt) =
        run_connect_lem os url bufs headers [] s reaches k.clear k.queue refl ok free version beat
          all in
      let joined_to = record s' {
        connection = record s'.connection { m_connecting = false; joinable = false };
      } in
      let ran : while_connecting os url order (some bufs) s ≡ some s' =
        ap
          (λ b.
            if b && not s.connection.m_connect_thread_done
            then run_connect os url bufs s
            else some s)
          k.connecting
        ∙ ap (λ b. if not b then run_connect os url bufs s else some s) k.running
        ∙ run in
      let then_join = λ (o : Option (Session N)). elim o as (λ _. Option (Bool × Session N)) [
        | none ↦ none
        | some x ↦ with_connection x (connect_on x.connection)
      ] in
      (
        joined_to,
        ap
              (λ b.
                if b
                then some (true, s)
                else then_join (while_connecting os url order (some bufs) s))
              k.unconnected
            ∙ ap then_join ran
            ∙ ap (with_connection s') (
                connect_on_done s'.connection (connecting ∙ k.connecting) done
                ∙ ap (λ b. some (b, joined_to.connection)) on),
        record {
          connected = on;
          open_socket = socket;
          reading = reading;
          clear = clear;
          queue = queue;
        },
        receipt,
      )

  -- The first call joins the thread, and goes on as a call on the new connection does.
  call-connected :
      (m : Meanwhile) (texts : Sender) (e : LogEvent) (s s1 : Session N)
      → connect os url order m.connect_thread s ≡ some (true, s1)
      → s1.connection.m_connected ≡ true
      → call os url order m texts e s ≡ call os url order m texts e s1
  unfolding call
  call-connected m texts e s s1 h on =
      rw (h, connect_connected os url order m.connect_thread s1 on, call) refl

  do_write-connected :
      (m : Meanwhile) (texts : Sender) (e : LogEvent) (s s1 : Session N)
      → m.idle ≡ []
      → connect os url order m.connect_thread s ≡ some (true, s1)
      → s1.connection.m_connected ≡ true
      → do_write os url order m texts e s ≡ do_write os url order m texts e s1
  do_write-connected m texts e s s1 quiet h on =
      let nothing = λ (x : Session N). ap (λ b. received b x) quiet ∙ received_nothing x in
      do_write_idle os url order m texts e s s (nothing s)
      ∙ call-connected m texts e s s1 h on
      ∙ sym (do_write_idle os url order m texts e s1 s1 (nothing s1))

  write_all-connected :
      (m : Meanwhile) (texts : Sender) (e : LogEvent) (rest : List (LogEvent × Meanwhile))
      (s s1 : Session N)
      → do_write os url order m texts e s ≡ do_write os url order m texts e s1
      → write_all os url order texts ((e, m) ∷ rest) s
        ≡ write_all os url order texts ((e, m) ∷ rest) s1
  unfolding write_all
  write_all-connected m texts e rest s s1 h = rw (h, write_all) refl

  pub greeted_delivers :
      (bufs : List Bytes) (m : Meanwhile) (texts : Sender) (e : LogEvent)
      (rest : List (LogEvent × Meanwhile)) (s : Session N)
      → Permᴰ order replacements
      → Sends os
      → IsConnecting s
      → Greets os url bufs s.m_socket
      → m.connect_thread ≡ some bufs
      → Answers s.connection.m_receipt ((e, m) ∷ rest)
      → (s1 : Session N) × (ps : List Bytes) × (s' : Session N) × (connect os url order
            (some bufs)
            s
          ≡ some (true, s1))
        × (packets order texts s.connection.m_receipt ((e, m) ∷ rest) ≡ some ps)
        × (write_all os url order texts ((e, m) ∷ rest) s
            ≡ some (map (λ x. true) ((e, m) ∷ rest), s'))
        × (s'.m_socket ≡ send_all os ps s1.m_socket)
        × IsIdle s'
  greeted_delivers bufs m texts e rest s p sends k greets at answers =
      let (s1, up, holds, same) = connect_greeted bufs s k greets in
      let run = (e, m) ∷ rest in
      let (ps, s', made, wrote, socket, holds') =
        write_all_delivers os url order texts run s1 p sends holds
          (subst (λ n. Answers n run) (sym same) answers) in
      let here = ap (λ b. connect os url order b s) at ∙ up in
      (
        s1,
        ps,
        s',
        up,
        ap (λ n. packets order texts n run) (sym same) ∙ made,
        write_all-connected m texts e rest s s1
              (do_write-connected m texts e s s1 answers.0 here holds.connected)
            ∙ wrote,
        socket,
        holds',
      )
