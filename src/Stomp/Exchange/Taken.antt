-- ===== src/Stomp/Exchange/Taken.antt =====
-- What becomes of a reply that do_write finds, at once or at the end of its wait.
use epics_logfile.Base.{
  ℕ, ◌≡◌, refl, ap, ◌∙◌, inl, inr, Bool, true, false, List, [], ◌∷◌, ◌++◌, some, Bytes, length,
  drop, ok, bytes_eq, if◌then◌else◌, arith, Bool-cases, ◌⊎◌,
}
use epics_logfile.Base.Decimal.{decimal}
use epics_logfile.Base.Map.{bytes_key}
use epics_logfile.Tcp
use epics_logfile.Tcp.{System, Socket, sent}
use epics_logfile.Stomp.Reply.{Reply}
use epics_logfile.Stomp.Reader.{read_blocks}
use epics_logfile.Stomp.Connection.{Connection}
use epics_logfile.Stomp.Connection.Laws.{check_receipt_named}
use epics_logfile.Stomp.Greeting.{Session, first}
use epics_logfile.Stomp.Exchange.{
  Meanwhile, received, read_to, answered, woken, waited, drop_connection,
}
use epics_logfile.Stomp.Exchange.Receipt.{IsReceipt, Names, read_blocks-IsReceipt}

-- Every byte is taken.
abbrev pub Sends : {N A : Type 0} → System N A → Type 0
Sends {N} os = (bytes : Bytes) (n : N) → (os.send bytes n).0 ≡ some (length bytes)

-- There is a connection, the reader is between two replies, and nothing waits in the queue.
pub record IsIdle {N : Type 0} (s : Session N) : Type 0 where
  pub connected : s.connection.m_connected ≡ true
  pub open_socket : s.m_socket.connected ≡ true
  pub reading : s.reader.connected ≡ true
  pub clear : s.reader.m_partial_reply ≡ []
  pub queue : s.reader.m_reply_queue ≡ []

module _ {N A : Type 0} (os : System N A) where
  abbrev pub after_send : Bytes → Socket N → Socket N
  after_send packet t = record t { net = (os.send packet t.net).1 }

  pub write-Sends :
      (packet : Bytes) (t : Socket N)
      → Sends os
      → t.connected ≡ true
      → Tcp.write os packet t ≡ (ok tt, after_send packet t)
  unfolding Tcp.write sent
  write-Sends packet t sends on = rw (on, Tcp.write) (rw (sends packet t.net) (ground arith))

module _ {N : Type 0} where
  -- The receipt stands behind the waiting replies.
  abbrev pub with_reply : Reply → Session N → Session N
  with_reply reply s = record s {
    reader = record s.reader {
      m_partial_reply = [];
      m_reply_queue = s.reader.m_reply_queue ++ reply ∷ [];
    };
  }

  pub received-IsReceipt :
      (n : ℕ) (bufs : List Bytes) (s : Session N)
      → s.reader.connected ≡ true
      → s.reader.m_partial_reply ≡ []
      → IsReceipt n bufs
      → (reply : Reply) × (received bufs s ≡ some (with_reply reply s)) × Names n reply
  unfolding received read_to
  received-IsReceipt n bufs s on clear receipt =
      let (reply, read, names) = read_blocks-IsReceipt n bufs s.reader on clear receipt in
      let r = record s.reader {
        m_partial_reply = [];
        m_reply_queue = s.reader.m_reply_queue ++ reply ∷ [];
      } in
      (
        reply,
        ap (λ b. if b then read_to (read_blocks bufs s.reader) s else some s) on
            ∙ ap (λ o. read_to o s) read
            ∙ ap
                (λ b. some (
                  if b then record s { reader = r } else drop_connection (record s { reader = r })))
                on,
        names,
      )

  -- The first reply decides, by its number.
  answered-Names :
      (k : ℕ) (reply : Reply) (s : Session N)
      → s.connection.m_connected ≡ true
      → Names k reply
      → answered reply s ≡ (
        bytes_eq (decimal s.connection.m_receipt) (decimal k),
        record s { reader = record s.reader { m_reply_queue = drop 1 s.reader.m_reply_queue } },
      )
  unfolding answered
  answered-Names k reply s on (name, number) =
      let next = λ (c : Connection). record s {
        reader = record s.reader { m_reply_queue = drop 1 s.reader.m_reply_queue };
        connection = c;
      } in
      ap
        (λ (o : Bool × Connection).
          (o.0, if o.1.m_connected then next o.1 else drop_connection (next o.1)))
        (check_receipt_named reply s.connection (decimal k) name number)
      ∙ ap
          (λ b. (
            bytes_eq (decimal s.connection.m_receipt) (decimal k),
            if b then next s.connection else drop_connection (next s.connection),
          ))
          on

  pub received_nothing : (s : Session N) → received [] s ≡ some s
  unfolding received read_to read_blocks
  received_nothing s = elim (Bool-cases s.reader.connected) [
    | inl on ↦
        ap (λ b. if b then read_to (some s.reader) s else some s) on
        ∙ ap (λ b. some (if b then s else drop_connection s)) on
    | inr off ↦ ap (λ b. if b then read_to (some s.reader) s else some s) off
  ]

  pub waited-first :
      (m : Meanwhile) (reply : Reply) (s : Session N)
      → first s.reader.m_reply_queue ≡ some reply
      → waited m s ≡ some (answered reply s)
  unfolding waited
  waited-first m reply s h = rw (h, waited) refl

  waited_none :
      (m : Meanwhile) (reply : Reply) (s s' : Session N)
      → s.reader.m_reply_queue ≡ []
      → received m.waiting s ≡ some s'
      → m.timed_out ≡ false
      → first s'.reader.m_reply_queue ≡ some reply
      → waited m s ≡ some (answered reply s')
  unfolding waited woken
  waited_none m reply s s' empty read on h =
      rw (ap first empty, waited) (rw read (rw (on, woken) (rw h refl)))

-- The receipt for the packet with the number `n` comes before do_write looks into the queue, or
-- while it waits, and in time.
abbrev pub IsAnswer : ℕ → Meanwhile → Type 0
IsAnswer n m =
    IsReceipt n m.before ⊎ ((m.before ≡ []) × IsReceipt n m.waiting × (m.timed_out ≡ false))

-- The session behind a packet and a reply.
abbrev pub exchanged_with : {N A : Type 0} → System N A → Bytes → ℕ → Session N → Session N
exchanged_with os packet n s = record {
  m_socket = after_send os packet s.m_socket;
  reader = record s.reader { m_partial_reply = []; m_reply_queue = [] };
  connection = record s.connection { m_receipt = n };
}

module _ {N : Type 0} where
  -- One reply, and it is taken.
  pub answered_only :
      (k : ℕ) (reply : Reply) (s : Session N)
      → s.connection.m_connected ≡ true
      → s.reader.m_reply_queue ≡ reply ∷ []
      → Names k reply
      → answered reply s ≡ (
        bytes_eq (decimal s.connection.m_receipt) (decimal k),
        record s { reader = record s.reader { m_reply_queue = [] } },
      )
  answered_only k reply s on only names =
      answered-Names k reply s on names
      ∙ ap
          (λ q. (
            bytes_eq (decimal s.connection.m_receipt) (decimal k),
            record s { reader = record s.reader { m_reply_queue = drop 1 q } },
          ))
          only

  -- The answer is read and taken.
  pub answer_taken :
      (n : ℕ) (m : Meanwhile) (s : Session N)
      → IsIdle s
      → IsAnswer n m
      → (reply : Reply) × (s1 : Session N) × (received m.before s ≡ some s1)
        × (waited m s1 ≡ some (answered reply (with_reply reply s)))
        × Names n reply
  answer_taken n m s idle (inl receipt) =
      let (reply, read, names) = received-IsReceipt n m.before s idle.reading idle.clear receipt in
      (
        reply,
        with_reply reply s,
        read,
        waited-first m reply (with_reply reply s) (ap (λ q. first (q ++ reply ∷ [])) idle.queue),
        names,
      )
  answer_taken n m s idle (inr (nothing, receipt, on_time)) =
      let (reply, read, names) = received-IsReceipt n m.waiting s idle.reading idle.clear receipt in
      (
        reply,
        s,
        ap (λ b. received b s) nothing ∙ received_nothing s,
        waited_none m reply s (with_reply reply s) idle.queue read on_time
            (ap (λ q. first (q ++ reply ∷ [])) idle.queue),
        names,
      )
