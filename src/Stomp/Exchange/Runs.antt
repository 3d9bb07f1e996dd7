-- ===== src/Stomp/Exchange/Runs.antt =====
-- Several calls of do_write, to a server that answers each packet with its receipt.
use mathlib.Core.List.{Permᴰ}
use epics_logfile.Base.{
  ℕ, ◌≡◌, ◌≢◌, refl, sym, ap, ◌∙◌, inl, inr, Bool, true, false, List, [], ◌∷◌, ◌++◌, Option, none,
  some, Bytes, bytes_eq, bytes_eq_iff, Bool-cases, map, arith,
}
use epics_logfile.Base.Decimal.{decimal, digits_value, digits_value-decimal}
use epics_logfile.Event.{LogEvent}
use epics_logfile.ParseUrl.{UrlInfo}
use epics_logfile.Tcp.{System, Socket}
use epics_logfile.Stomp.Sanitize.{Entity, replacements}
use epics_logfile.Stomp.Packet.{Sender, send_packet_total}
use epics_logfile.Stomp.Greeting.{Session}
use epics_logfile.Stomp.Exchange.{Meanwhile, packet_for, next_receipt, do_write}
use epics_logfile.Stomp.Exchange.Receipt.{IsReceipt}
use epics_logfile.Stomp.Exchange.Taken.{Sends, IsIdle, IsAnswer, after_send, exchanged_with}
use epics_logfile.Stomp.Exchange.Answered.{exchanged_with-IsIdle, do_write-IsAnswer, do_write_late}

-- do_write for one event after the other: the results, and the session afterwards.
unfoldable pub write_all :
    {N A : Type 0}
    → System N A
    → UrlInfo
    → List Entity
    → Sender
    → List (LogEvent × Meanwhile)
    → Session N
    → Option (List Bool × Session N)
write_all os url order texts [] s = some ([], s)
write_all os url order texts ((e, m) ∷ rest) s = elim (do_write os url order m texts e s) [
  | none ↦ none
  | some (done, s') ↦ elim (write_all os url order texts rest s') [
    | none ↦ none
    | some (more, s'') ↦ some (done ∷ more, s'')
  ]
]

-- After the packet with the number `n`, the receipt for each packet comes in its call.
abbrev pub Answers : ℕ → List (LogEvent × Meanwhile) → Type 0
Answers n [] = Unit {0}
Answers n ((e, m) ∷ rest) =
    (m.idle ≡ []) × IsAnswer (next_receipt n) m × Answers (next_receipt n) rest

-- Before each call there comes the receipt for the packet before it, and its own does not come
-- before do_write looks into the queue.
abbrev pub LateAnswers : ℕ → List (LogEvent × Meanwhile) → Type 0
LateAnswers n [] = Unit {0}
LateAnswers n ((e, m) ∷ rest) =
    IsReceipt n m.idle × (m.before ≡ []) × LateAnswers (next_receipt n) rest

-- The packets of the events, in order, with numbers that follow `n`.
unfoldable pub packets :
    List Entity → Sender → ℕ → List (LogEvent × Meanwhile) → Option (List Bytes)
packets order texts n [] = some []
packets order texts n ((e, m) ∷ rest) =
    elim (packet_for order (record texts { m_receipt = next_receipt n }) e) [
      | none ↦ none
      | some p ↦ elim (packets order texts (next_receipt n) rest) [
        | none ↦ none
        | some ps ↦ some (p ∷ ps)
      ]
    ]

-- The socket after these packets.
abbrev pub send_all : {N A : Type 0} → System N A → List Bytes → Socket N → Socket N
send_all os [] t = t
send_all os (p ∷ ps) t = send_all os ps (after_send os p t)

packet_for_total :
    (order : List Entity) (texts : Sender) (e : LogEvent)
    → Permᴰ order replacements
    → (packet : Bytes) × (packet_for order texts e ≡ some packet)
unfolding packet_for
packet_for_total order texts e p =
    let (packet, made) = send_packet_total order texts e p in
    (packet ++ 0 ∷ [], rw (made, packet_for) refl)

next_receipt-ne : (n : ℕ) → next_receipt n ≢ n
unfolding next_receipt
next_receipt-ne n h = omega arith

-- The numbers of two packets in a row are told apart.
decimal-next_receipt : (n : ℕ) → bytes_eq (decimal (next_receipt n)) (decimal n) ≡ false
decimal-next_receipt n = elim (Bool-cases (bytes_eq (decimal (next_receipt n)) (decimal n))) [
  | inr other ↦ other
  | inl same ↦ absurd (
      next_receipt-ne n (
        sym (digits_value-decimal (next_receipt n))
        ∙ ap (digits_value 0) ((bytes_eq_iff _ _).0 same)
        ∙ digits_value-decimal n))
]

module _ {N A : Type 0} (os : System N A) (url : UrlInfo) (order : List Entity)
    (texts : Sender) where
  -- All calls have the result `result`, and what has been sent is the events' packets, in order.
  -- Nothing waits afterwards.
  abbrev pub AllSent : Bool → List (LogEvent × Meanwhile) → Session N → Type 0
  AllSent result run s =
      (ps : List Bytes) × (s' : Session N) × (packets order texts s.connection.m_receipt run
        ≡ some ps)
      × (write_all os url order texts run s ≡ some (map (λ x. result) run, s'))
      × (s'.m_socket ≡ send_all os ps s.m_socket)
      × IsIdle s'

  AllSent-nil : (result : Bool) (s : Session N) → IsIdle s → AllSent result [] s
  unfolding packets write_all
  AllSent-nil result s idle = ([], s, refl, refl, refl, idle)

  AllSent-cons :
      (result : Bool) (e : LogEvent) (m : Meanwhile) (rest : List (LogEvent × Meanwhile))
      (packet : Bytes) (s : Session N)
      → let n = next_receipt s.connection.m_receipt in
        packet_for order (record texts { m_receipt = n }) e ≡ some packet
        → do_write os url order m texts e s ≡ some (result, exchanged_with os packet n s)
        → AllSent result rest (exchanged_with os packet n s)
        → AllSent result ((e, m) ∷ rest) s
  unfolding packets write_all
  AllSent-cons result e m rest packet s made step (ps, s', ps_made, run, socket, idle) = (
    packet ∷ ps,
    s',
    rw (made, packets) (rw ps_made refl),
    rw (step, write_all) (rw run refl),
    socket,
    idle,
  )

  -- Where nothing waits, and the receipt for each packet comes in its call, every call succeeds and
  -- has sent its packet. The system takes every byte.
  pub write_all_delivers :
      (run : List (LogEvent × Meanwhile)) (s : Session N)
      → Permᴰ order replacements
      → Sends os
      → IsIdle s
      → Answers s.connection.m_receipt run
      → AllSent true run s
  write_all_delivers [] s p sends idle answers = AllSent-nil true s idle
  write_all_delivers ((e, m) ∷ rest) s p sends idle (quiet, answer, answers) =
      let n = next_receipt s.connection.m_receipt in
      let (packet, made) = packet_for_total order (record texts { m_receipt = n }) e p in
      AllSent-cons true e m rest packet s made
        (do_write-IsAnswer os url order m texts e packet s sends idle made quiet answer)
        (write_all_delivers rest (exchanged_with os packet n s) p sends
          (exchanged_with-IsIdle os url order packet n s idle) answers)

  -- Replies are taken in their order, whatever packet they belong to. If the last receipt comes once
  -- more, and from then on each packet's receipt comes only after its call, but before the next one,
  -- every call fails and is to be repeated: though the server has taken each packet, in order, and
  -- answered it, and the connection stays. The system takes every byte.
  pub write_all_late :
      (run : List (LogEvent × Meanwhile)) (s : Session N)
      → Permᴰ order replacements
      → Sends os
      → IsIdle s
      → LateAnswers s.connection.m_receipt run
      → AllSent false run s
  write_all_late [] s p sends idle answers = AllSent-nil false s idle
  write_all_late ((e, m) ∷ rest) s p sends idle (late, nothing, answers) =
      let k = s.connection.m_receipt in
      let n = next_receipt k in
      let (packet, made) = packet_for_total order (record texts { m_receipt = n }) e p in
      AllSent-cons false e m rest packet s made
        (do_write_late os url order m texts e packet s sends idle made late nothing
          ∙ ap (λ b. some (b, exchanged_with os packet n s)) (decimal-next_receipt k))
        (write_all_late rest (exchanged_with os packet n s) p sends
          (exchanged_with-IsIdle os url order packet n s idle) answers)
