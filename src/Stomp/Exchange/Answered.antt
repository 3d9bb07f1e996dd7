-- ===== src/Stomp/Exchange/Answered.antt =====
-- One do_write to a server that answers, whatever is waiting in the queue.
use epics_logfile.Base.{
  ℕ, ◌≡◌, refl, ap, ◌∙◌, Bool, true, List, [], ◌∷◌, ◌++◌, Option, none, some, Bytes, bytes_eq,
  bytes_eq_refl,
}
use epics_logfile.Base.Decimal.{decimal}
use epics_logfile.Base.Map.{bytes_key}
use epics_logfile.Event.{LogEvent}
use epics_logfile.ParseUrl.{UrlInfo}
use epics_logfile.Tcp
use epics_logfile.Tcp.{System, Socket, sent}
use epics_logfile.Stomp.Sanitize.{Entity}
use epics_logfile.Stomp.Packet.{Sender}
use epics_logfile.Stomp.Greeting.{Session, first}
use epics_logfile.Stomp.Exchange.{
  Meanwhile, packet_for, next_receipt, received, waited, exchanged, call, connect, write_event,
  do_write,
}
use epics_logfile.Stomp.Exchange.Receipt.{IsReceipt}
use epics_logfile.Stomp.Exchange.Taken.{
  IsIdle, Sends, after_send, write-Sends, with_reply, received-IsReceipt, received_nothing,
  waited-first, IsAnswer, exchanged_with, answered_only, answer_taken,
}

module _ {N A : Type 0} (os : System N A) (url : UrlInfo) (order : List Entity) where
  -- The call from the packet on, up to its reply.
  exchanged-waited :
      (m : Meanwhile) (packet : Bytes) (s s1 : Session N) {o : Option (Bool × Session N)}
      → Sends os
      → s.m_socket.connected ≡ true
      → received m.before (record s { m_socket = after_send os packet s.m_socket }) ≡ some s1
      → waited m s1 ≡ o
      → exchanged m (Tcp.write os packet s.m_socket) s ≡ o
  unfolding exchanged
  exchanged-waited m packet s s1 sends on read wait =
      ap (λ w. exchanged m w s) (write-Sends os packet s.m_socket sends on)
      ∙ ap
          (λ (o : Option (Session N)). elim o as (λ _. Option (Bool × Session N)) [
            | none ↦ none
            | some s' ↦ waited m s'
          ])
          read
      ∙ wait

  pub connect_connected :
      (ending : Option (List Bytes)) (s : Session N)
      → s.connection.m_connected ≡ true
      → connect os url order ending s ≡ some (true, s)
  unfolding connect
  connect_connected ending s on = rw (on, connect) refl

  pub call_connected :
      (m : Meanwhile) (texts : Sender) (e : LogEvent) (packet : Bytes) (s : Session N)
      → let n = next_receipt s.connection.m_receipt in
        s.connection.m_connected ≡ true
        → packet_for order (record texts { m_receipt = n }) e ≡ some packet
        → call os url order m texts e s
          ≡ exchanged m
              (Tcp.write os packet s.m_socket)
              (record s { connection = record s.connection { m_receipt = n } })
  unfolding call write_event
  call_connected m texts e packet s on made =
      rw (connect_connected m.connect_thread s on, call) (rw (made, write_event) refl)

  pub do_write_idle :
      (m : Meanwhile) (texts : Sender) (e : LogEvent) (s s0 : Session N)
      → received m.idle s ≡ some s0
      → do_write os url order m texts e s ≡ call os url order m texts e s0
  unfolding do_write
  do_write_idle m texts e s s0 h = rw (h, do_write) refl

  pub exchanged_with-IsIdle :
      (packet : Bytes) (n : ℕ) (s : Session N) → IsIdle s → IsIdle (exchanged_with os packet n s)
  exchanged_with-IsIdle packet n s idle = record {
    connected = idle.connected;
    open_socket = idle.open_socket;
    reading = idle.reading;
    clear = refl;
    queue = refl;
  }

  -- A packet whose receipt comes in its call.
  pub call-IsAnswer :
      (m : Meanwhile) (texts : Sender) (e : LogEvent) (packet : Bytes) (s : Session N)
      → let n = next_receipt s.connection.m_receipt in
        Sends os
        → IsIdle s
        → packet_for order (record texts { m_receipt = n }) e ≡ some packet
        → IsAnswer n m
        → call os url order m texts e s ≡ some (true, exchanged_with os packet n s)
  call-IsAnswer m texts e packet s sends idle made answer =
      let n = next_receipt s.connection.m_receipt in
      let numbered = record s { connection = record s.connection { m_receipt = n } } in
      let sent_to = record numbered { m_socket = after_send os packet s.m_socket } in
      let idle' : IsIdle sent_to = record {
        connected = idle.connected;
        open_socket = idle.open_socket;
        reading = idle.reading;
        clear = idle.clear;
        queue = idle.queue;
      } in
      let (reply, s1, read, wait, names) = answer_taken n m sent_to idle' answer in
      call_connected m texts e packet s idle.connected made
      ∙ exchanged-waited m packet numbered s1 sends idle.open_socket read (
          wait
          ∙ ap some (
              answered_only n reply (with_reply reply sent_to) idle.connected
                (ap (λ q. q ++ reply ∷ []) idle.queue) names))
      ∙ ap (λ b. some (b, exchanged_with os packet n s)) (bytes_eq_refl (decimal n))

  pub do_write-IsAnswer :
      (m : Meanwhile) (texts : Sender) (e : LogEvent) (packet : Bytes) (s : Session N)
      → let n = next_receipt s.connection.m_receipt in
        Sends os
        → IsIdle s
        → packet_for order (record texts { m_receipt = n }) e ≡ some packet
        → m.idle ≡ []
        → IsAnswer n m
        → do_write os url order m texts e s ≡ some (true, exchanged_with os packet n s)
  do_write-IsAnswer m texts e packet s sends idle made quiet answer =
      do_write_idle m texts e s s (ap (λ b. received b s) quiet ∙ received_nothing s)
      ∙ call-IsAnswer m texts e packet s sends idle made answer

  -- A packet that finds the receipt of the one before.
  pub do_write_late :
      (m : Meanwhile) (texts : Sender) (e : LogEvent) (packet : Bytes) (s : Session N)
      → let k = s.connection.m_receipt in
        let n = next_receipt k in
        Sends os
        → IsIdle s
        → packet_for order (record texts { m_receipt = n }) e ≡ some packet
        → IsReceipt k m.idle
        → m.before ≡ []
        → do_write os url order m texts e s
          ≡ some (bytes_eq (decimal n) (decimal k), exchanged_with os packet n s)
  do_write_late m texts e packet s sends idle made late nothing =
      let k = s.connection.m_receipt in
      let n = next_receipt k in
      let (reply, read, names) = received-IsReceipt k m.idle s idle.reading idle.clear late in
      let s0 = with_reply reply s in
      let numbered = record s0 { connection = record s0.connection { m_receipt = n } } in
      let sent_to = record numbered { m_socket = after_send os packet s.m_socket } in
      let only : s0.reader.m_reply_queue ≡ reply ∷ [] = ap (λ q. q ++ reply ∷ []) idle.queue in
      do_write_idle m texts e s s0 read
      ∙ call_connected m texts e packet s0 idle.connected made
      ∙ exchanged-waited m packet numbered sent_to sends idle.open_socket
          (ap (λ b. received b sent_to) nothing ∙ received_nothing sent_to)
          (waited-first m reply sent_to (ap first only)
            ∙ ap some (answered_only k reply sent_to idle.connected only names))
