-- ===== src/Stomp/Exchange/Success.antt =====
-- What a success of do_write means.
use epics_logfile.Base.{
  ◌≡◌, ◌⊎◌, refl, sym, ap, subst, ◌∙◌, inl, inr, Bool, true, false, List, Option, none, some, Bytes,
  Result, ok, throw, Option-cases, Bool-cases, if◌then◌else◌, arith,
}
use epics_logfile.Event.{LogEvent}
use epics_logfile.ParseUrl.{UrlInfo}
use epics_logfile.Tcp
use epics_logfile.Tcp.{System, Socket}
use epics_logfile.Stomp.Sanitize.{Entity}
use epics_logfile.Stomp.Reply.{Reply}
use epics_logfile.Stomp.Reader.{Reader, read_blocks}
use epics_logfile.Stomp.Packet.{Sender}
use epics_logfile.Stomp.Connection.{await_receipt}
use epics_logfile.Stomp.Connection.Laws.{await_receipt_ok}
use epics_logfile.Stomp.Greeting.{Session, first}
use epics_logfile.Stomp.Exchange.{
  Meanwhile, packet_for, next_receipt, received, read_to, drop_connection, answered, woken, waited,
  exchanged, connect, write_event, call, do_write,
}
use epics_logfile.Stomp.Exchange.Receipt.{Names}

ap_fst : {X : Type 0} (p : Bool × X) {b : Bool} {x : X} → some p ≡ some (b, x) → p.0 ≡ b
ap_fst (c, y) h = ground (arith, h)

module _ {N : Type 0} where
  read_to-m_receipt :
      (o : Option Reader) (s s' : Session N)
      → read_to o s ≡ some s'
      → s'.connection.m_receipt ≡ s.connection.m_receipt
  unfolding read_to drop_connection
  read_to-m_receipt none s s' h = cc
  read_to-m_receipt (some r) s s' h = ground (arith, h)

  received-m_receipt :
      (bufs : List Bytes) (s s' : Session N)
      → received bufs s ≡ some s'
      → s'.connection.m_receipt ≡ s.connection.m_receipt
  unfolding received
  received-m_receipt bufs s s' h = elim (Bool-cases s.reader.connected) [
    | inl on ↦
        read_to-m_receipt (read_blocks bufs s.reader) s s'
          (sym (ap (λ b. if b then read_to (read_blocks bufs s.reader) s else some s) on) ∙ h)
    | inr off ↦ ground (arith, h, off)
  ]

  answered_ok :
      (reply : Reply) (s : Session N)
      → (answered reply s).0 ≡ true
      → Names s.connection.m_receipt reply
  unfolding answered await_receipt
  answered_ok reply s h =
      let (r, written, same, name, number) = await_receipt_ok true (some reply) s.connection h in
      let is_r : r ≡ reply = cc same in subst (Names s.connection.m_receipt) is_r (name, number)

  -- The receipt was taken: it was waiting, or it came while do_write waited.
  abbrev pub Took : Meanwhile → Session N → Type 0
  Took m s =
      (s1 : Session N) × (s2 : Session N) × (reply : Reply) × (received m.before s ≡ some s1)
      × ((s2 ≡ s1)
          ⊎ ((first s1.reader.m_reply_queue ≡ none)
              × (received m.waiting s1 ≡ some s2)
              × (m.timed_out ≡ false)))
      × (first s2.reader.m_reply_queue ≡ some reply)
      × Names s.connection.m_receipt reply

  woken_ok :
      (timed_out : Bool) (s s' : Session N)
      → woken timed_out s ≡ some (true, s')
      → (timed_out ≡ false)
        × ((reply : Reply) × (first s.reader.m_reply_queue ≡ some reply)
            × Names s.connection.m_receipt reply)
  unfolding woken
  woken_ok true s s' h = ground (arith, h)
  woken_ok false s s' h = elim (Option-cases (first s.reader.m_reply_queue)) [
    | inl empty ↦ ground (arith, rw (empty, woken) at h)
    | inr (reply, hit) ↦
        (refl, (reply, hit, answered_ok reply s (ap_fst (answered reply s) (rw (hit, woken) at h))))
  ]

  waited_ok :
      (m : Meanwhile) (s s' : Session N)
      → waited m s ≡ some (true, s')
      → (s2 : Session N) × (reply : Reply) × ((s2 ≡ s)
          ⊎ ((first s.reader.m_reply_queue ≡ none)
              × (received m.waiting s ≡ some s2)
              × (m.timed_out ≡ false)))
        × (first s2.reader.m_reply_queue ≡ some reply)
        × Names s.connection.m_receipt reply
  unfolding waited
  waited_ok m s s' h = elim (Option-cases (first s.reader.m_reply_queue)) [
    | inr (reply, hit) ↦ (
      s,
      reply,
      inl refl,
      hit,
      answered_ok reply s (ap_fst (answered reply s) (rw (hit, waited) at h)),
    )
    | inl empty ↦ elim (Option-cases (received m.waiting s)) [
      | inl stuck ↦ ground (arith, rw (stuck) at (rw (empty, waited) at h))
      | inr (s2, read) ↦
          let (on_time, (reply, hit, names)) =
            woken_ok m.timed_out s2 s' (rw read at (rw (empty, waited) at h)) in
          (
            s2,
            reply,
            inr (empty, read, on_time),
            hit,
            subst (λ n. Names n reply) (received-m_receipt m.waiting s s2 read) names,
          )
    ]
  ]

  exchanged_ok :
      (m : Meanwhile) (r : Result (Unit {0})) (t : Socket N) (s s' : Session N)
      → exchanged m (r, t) s ≡ some (true, s')
      → (r ≡ ok tt) × Took m (record s { m_socket = t })
  unfolding exchanged
  exchanged_ok m (throw x) t s s' h = ground (arith, h)
  exchanged_ok m (ok _) t s s' h =
      let sent_to = record s { m_socket = t } in
      elim (Option-cases (received m.before sent_to)) [
        | inl stuck ↦ ground (arith, rw (stuck, exchanged) at h)
        | inr (s1, read) ↦
            let (s2, reply, how, hit, names) = waited_ok m s1 s' (rw (read, exchanged) at h) in
            (
              refl,
              (
                s1,
                s2,
                reply,
                read,
                how,
                hit,
                subst (λ n. Names n reply) (received-m_receipt m.before sent_to s1 read) names,
              ),
            )
      ]

module _ {N A : Type 0} (os : System N A) (url : UrlInfo) (order : List Entity) where
  -- There was a connection, the packet of the event was written to its socket, and the first reply
  -- to be taken is the receipt with the packet's number.
  abbrev pub Success : Meanwhile → Sender → LogEvent → Session N → Type 0
  Success m texts e s =
      (s0 : Session N) × (s1 : Session N) × (packet : Bytes) × (t : Socket N) × (received m.idle s
        ≡ some s0)
      × (connect os url order m.connect_thread s0 ≡ some (true, s1))
      × (packet_for order (record texts { m_receipt = next_receipt s1.connection.m_receipt }) e
          ≡ some packet)
      × (Tcp.write os packet s1.m_socket ≡ (ok tt, t))
      × Took m (record s1 {
        m_socket = t;
        connection = record s1.connection { m_receipt = next_receipt s1.connection.m_receipt };
      })

  -- do_write succeeds only if there was a connection, the event's packet was written to it, and the
  -- first reply to be taken, at once or at the end of a wait that has not timed out, was the receipt
  -- with the packet's number.
  pub do_write_ok :
      (m : Meanwhile) (texts : Sender) (e : LogEvent) (s s' : Session N)
      → do_write os url order m texts e s ≡ some (true, s')
      → Success m texts e s
  unfolding do_write call write_event
  do_write_ok m texts e s s' h = elim (Option-cases (received m.idle s)) [
    | inl stuck ↦ ground (arith, rw (stuck, do_write) at h)
    | inr (s0, read) ↦
        let h0 : call os url order m texts e s0 ≡ some (true, s') = rw (read, do_write) at h in
        elim (Option-cases (connect os url order m.connect_thread s0)) [
          | inl ended ↦ ground (arith, rw (ended, call) at h0)
          | inr ((false, s1), off) ↦ ground (arith, rw (off, call) at h0)
          | inr ((true, s1), on) ↦
              let n = next_receipt s1.connection.m_receipt in
              let h1 : write_event os url order m texts e s1 ≡ some (true, s') =
                rw (on, call) at h0 in
              elim (Option-cases (packet_for order (record texts { m_receipt = n }) e)) [
                | inl stuck ↦ ground (arith, rw (stuck, write_event) at h1)
                | inr (packet, made) ↦
                    let (r, t) = Tcp.write os packet s1.m_socket in
                    let numbered = record s1 {
                      connection = record s1.connection { m_receipt = n };
                    } in
                    let (sent, took) =
                      exchanged_ok m r t numbered s' (rw (made, write_event) at h1) in
                    (s0, s1, packet, t, read, on, made, ap (λ x. (x, t)) sent, took)
              ]
        ]
  ]
