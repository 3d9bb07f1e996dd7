-- ===== src/Stomp/Connection/Laws.antt =====
-- The connection's states, and what do_write's success means.
use epics_logfile.Base.{
  ◌≡◌, ◌⊎◌, inl, inr, refl, ap, ◌∙◌, sym, subst, Bool, true, false, not, ◌&&◌, Option, none, some,
  Bytes, codes, bytes_eq, bytes_eq_iff, if◌then◌else◌, arith, Bool-cases, Option-cases,
}
use epics_logfile.Base.Decimal.{decimal}
use epics_logfile.Base.Map.{find, bytes_key}
use epics_logfile.Stomp.Reply.{Reply}
use epics_logfile.Stomp.Connection.{
  Connection, disconnect, connect_thread, start_thread, between, connect_on, connect, receipt_id,
  check_receipt, await_receipt,
}

-- There is a thread to join just while a connection is being made.
abbrev pub IsWellFormed : Connection → Type 0
IsWellFormed c = c.joinable ≡ c.m_connecting

connect_thread-IsWellFormed :
    (reply : Option Reply) (c : Connection) → IsWellFormed c → IsWellFormed (connect_thread reply c)
unfolding connect_thread disconnect
connect_thread-IsWellFormed none c w = w
connect_thread-IsWellFormed (some reply) c w = ground (arith, w)

between-IsWellFormed :
    (ending : Option (Option Reply)) (c : Connection)
    → IsWellFormed c
    → IsWellFormed (between ending c)
unfolding between
between-IsWellFormed none c w = w
between-IsWellFormed (some reply) c w =
    elim (Bool-cases (c.m_connecting && not c.m_connect_thread_done)) [
      | inl runs ↦
          subst (λ b. IsWellFormed (if b then connect_thread reply c else c)) (sym runs)
            (connect_thread-IsWellFormed reply c w)
      | inr rests ↦
          subst (λ b. IsWellFormed (if b then connect_thread reply c else c)) (sym rests) w
    ]

-- A connection that has come up in between is that of a thread that is done.
between_connected :
    (ending : Option (Option Reply)) (c : Connection)
    → c.m_connected ≡ false
    → (between ending c).m_connected ≡ true
    → ((between ending c).m_connecting ≡ true) × ((between ending c).m_connect_thread_done ≡ true)
unfolding between connect_thread disconnect
between_connected none c off h = ground (arith, off, h)
between_connected (some none) c off h = ground (arith, off, h)
between_connected (some (some reply)) c off h = ground (arith, off, h)

-- The outcome of a call that does not end the program.
Outcome : Option (Bool × Connection) → Type 0
Outcome o =
    (done : Bool) × (c' : Connection) × (o ≡ some (done, c'))
    × IsWellFormed c'
    × (done ≡ c'.m_connected)

connect_on_lem :
    (c : Connection)
    → IsWellFormed c
    → (c.m_connected ≡ true → (c.m_connecting ≡ true) × (c.m_connect_thread_done ≡ true))
    → Outcome (connect_on c)
unfolding connect_on start_thread Outcome
connect_on_lem c w h =
    let joined = record c { m_connecting = false; joinable = false } in
    elim (Bool-cases c.m_connecting) [
      | inl on ↦ elim (Bool-cases c.m_connect_thread_done) [
        | inl over ↦ (
          c.m_connected,
          joined,
          ap
                (λ b.
                  if b
                  then (if c.m_connect_thread_done
                      then some (c.m_connected, joined)
                      else some (false, c))
                  else start_thread c)
                on
              ∙ ap (λ b. if b then some (c.m_connected, joined) else some (false, c)) over,
          refl,
          refl,
        )
        | inr runs ↦ (
          false,
          c,
          ap
                (λ b.
                  if b
                  then (if c.m_connect_thread_done
                      then some (c.m_connected, joined)
                      else some (false, c))
                  else start_thread c)
                on
              ∙ ap (λ b. if b then some (c.m_connected, joined) else some (false, c)) runs,
          w,
          ground (arith, h, runs),
        )
      ]
      | inr off ↦
          let started = record c {
            m_connecting = true;
            m_connect_thread_done = false;
            joinable = true;
          } in
          (
            false,
            started,
            ap
                  (λ b.
                    if b
                    then (if c.m_connect_thread_done
                        then some (c.m_connected, joined)
                        else some (false, c))
                    else start_thread c)
                  off
                ∙ ap (λ b. if b then none else some (false, started)) (w ∙ off),
            refl,
            ground (arith, h, off),
          )
    ]

-- connect never starts a thread while one is still to be joined, and it says true only for a
-- connection that the server has accepted.
pub connect-IsWellFormed :
    (ending : Option (Option Reply)) (c : Connection)
    → IsWellFormed c
    → (done : Bool) × (c' : Connection) × (connect ending c ≡ some (done, c'))
      × IsWellFormed c'
      × (done ≡ c'.m_connected)
unfolding connect Outcome
connect-IsWellFormed ending c w = elim (Bool-cases c.m_connected) [
  | inl on ↦
      (true, c, ap (λ b. if b then some (true, c) else connect_on (between ending c)) on, w, sym on)
  | inr off ↦
      subst Outcome
        (ap (λ b. if b then some (true, c) else connect_on (between ending c)) (sym off))
        (connect_on_lem (between ending c) (between-IsWellFormed ending c w)
          (between_connected ending c off))
]

check_receipt_lem :
    (r : Reply) (c : Connection)
    → ((r.command ≡ codes "RECEIPT")
        × (check_receipt r c ≡ receipt_id (find (codes "receipt-id") r.headers) c))
      ⊎ (check_receipt r c ≡ (false, disconnect c))
unfolding check_receipt receipt_id
check_receipt_lem r c = elim (Bool-cases (bytes_eq r.command (codes "RECEIPT"))) [
  | inl named ↦ inl (
    (bytes_eq_iff r.command (codes "RECEIPT")).0 named,
    ap
        (λ b.
          if b then receipt_id (find (codes "receipt-id") r.headers) c else (false, disconnect c))
        named,
  )
  | inr other ↦ inr (
      ap
        (λ b.
          if b then receipt_id (find (codes "receipt-id") r.headers) c else (false, disconnect c))
        other)
]

-- A RECEIPT with a number.
pub check_receipt_named :
    (r : Reply) (c : Connection) (id : Bytes)
    → r.command ≡ codes "RECEIPT"
    → find (codes "receipt-id") r.headers ≡ some id
    → check_receipt r c ≡ (bytes_eq (decimal c.m_receipt) id, c)
unfolding check_receipt receipt_id
check_receipt_named r c id name number =
    ap
      (λ b. if b then receipt_id (find (codes "receipt-id") r.headers) c else (false, disconnect c))
      ((bytes_eq_iff r.command (codes "RECEIPT")).1 name)
    ∙ ap (λ o. receipt_id o c) number

-- Either the answer is a RECEIPT with a number, which decides, and nothing changes, or do_write
-- fails and disconnects.
check_receipt_cases :
    (r : Reply) (c : Connection)
    → (r.command ≡ codes "RECEIPT")
        × ((id : Bytes) × (find (codes "receipt-id") r.headers ≡ some id)
            × (check_receipt r c ≡ (bytes_eq (decimal c.m_receipt) id, c)))
      ⊎ (check_receipt r c ≡ (false, disconnect c))
unfolding receipt_id
check_receipt_cases r c = elim (check_receipt_lem r c) [
  | inl (named, e) ↦ elim (Option-cases (find (codes "receipt-id") r.headers)) [
    | inl none_ ↦ inr (e ∙ ap (λ o. receipt_id o c) none_)
    | inr (id, found) ↦ inl (named, (id, found, e ∙ ap (λ o. receipt_id o c) found))
  ]
  | inr e ↦ inr e
]

-- After the packet, do_write reports success only if the packet could be written and the server
-- answers in time, with the RECEIPT that has the packet's number.
pub await_receipt_ok :
    (written : Bool) (reply : Option Reply) (c : Connection)
    → (await_receipt written reply c).0 ≡ true
    → (r : Reply) × (written ≡ true)
      × (reply ≡ some r)
      × (r.command ≡ codes "RECEIPT")
      × (find (codes "receipt-id") r.headers ≡ some (decimal c.m_receipt))
unfolding await_receipt
await_receipt_ok false reply c h = ground (arith, h)
await_receipt_ok true none c h = ground (arith, h)
await_receipt_ok true (some r) c h = elim (check_receipt_cases r c) [
  | inl (named, (id, found, e)) ↦
      let same = (bytes_eq_iff (decimal c.m_receipt) id).0 (ap (λ o. o.0) (sym e) ∙ h) in
      (r, refl, refl, named, found ∙ ap some (sym same))
  | inr e ↦ ground (arith, ap (λ o. o.0) (sym e) ∙ h)
]
