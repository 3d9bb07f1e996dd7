-- ===== src/Stomp/Sink/Turn.antt =====
-- A turn of the retry thread over the STOMP sink.
use mathlib.Core.List.{Permᴰ}
use epics_logfile.Base.{
  ℕ, ◌≡◌, refl, sym, ap, subst, ◌∙◌, inl, inr, Bool, true, false, List, [], ◌∷◌, Option, none, some,
  Bytes, map, keep_if, Option-cases, Bool-cases, if◌then◌else◌, arith,
}
use epics_logfile.Level.{Level, level_lt}
use epics_logfile.Event.{LogEvent}
use epics_logfile.OutputStream.{StreamClass, OutputStream, write, clears}
use epics_logfile.Retry
use epics_logfile.Retry.{Queue, drain, expire, active}
use epics_logfile.ParseUrl.{UrlInfo}
use epics_logfile.Tcp.{System}
use epics_logfile.Stomp.Sanitize.{Entity, replacements}
use epics_logfile.Stomp.Packet.{Sender}
use epics_logfile.Stomp.Greeting.{Session}
use epics_logfile.Stomp.Exchange.{Meanwhile, connect, do_write}
use epics_logfile.Stomp.Exchange.Taken.{Sends, IsIdle}
use epics_logfile.Stomp.Exchange.Runs.{write_all, Answers, packets, send_all}
use epics_logfile.Stomp.Exchange.Greeted.{IsConnecting, Greets, greeted_delivers}
use epics_logfile.Stomp.Sink.{Sink, stomp_class, write_sink, after_call}

uncons :
    {X : Type 0} (done : Bool) (o : Option (List Bool × X)) {ds : List Bool} {x : X}
    → (elim o as (λ _. Option (List Bool × X)) [
      | none ↦ none
      | some (more, x) ↦ some (done ∷ more, x)
    ])
      ≡ some (true ∷ ds, x)
    → (done ≡ true) × (o ≡ some (ds, x))
uncons done none h = cc
uncons done (some (more, y)) h = (cc h, cc h)

module _ {N A : Type 0} (os : System N A) (url : UrlInfo) (order : List Entity)
    (texts : Sender) where
  abbrev pub cls : StreamClass (Sink N)
  cls = stomp_class os url order texts

  abbrev pub stream : Level → Session N → List Meanwhile → OutputStream (Sink N)
  stream l s ms = record { min_log_level = l; sink = record { session = some s; ahead = ms } }

  -- A run that succeeds, call by call.
  pub write_all_step :
      (e : LogEvent) (m : Meanwhile) (rest : List (LogEvent × Meanwhile)) (s s' : Session N)
      → write_all os url order texts ((e, m) ∷ rest) s ≡ some (map (λ x. true) ((e, m) ∷ rest), s')
      → (s1 : Session N) × (do_write os url order m texts e s ≡ some (true, s1))
        × (write_all os url order texts rest s1 ≡ some (map (λ x. true) rest, s'))
  unfolding write_all
  write_all_step e m rest s s' h = elim (Option-cases (do_write os url order m texts e s)) [
    | inl ended ↦ ground (arith, rw (ended, write_all) at h)
    | inr ((done, s1), step) ↦
        let (all_done, later) =
          uncons done (write_all os url order texts rest s1) (rw (step, write_all) at h) in
        (s1, step ∙ ap (λ b. some (b, s1)) all_done, later)
  ]

  write_below :
      (l : Level) (e : LogEvent) (s : Session N) (ms : List Meanwhile)
      → clears l e ≡ false
      → write cls e (stream l s ms) ≡ (true, stream l s ms)
  unfolding write clears
  write_below l e s ms h = ground (arith, h)

  write_above :
      (l : Level) (e : LogEvent) (m : Meanwhile) (ms : List Meanwhile) (s s1 : Session N)
      → clears l e ≡ true
      → do_write os url order m texts e s ≡ some (true, s1)
      → write cls e (stream l s (m ∷ ms)) ≡ (true, stream l s1 ms)
  unfolding write clears stomp_class write_sink after_call
  write_above l e m ms s s1 h step =
      let o = stream l s (m ∷ ms) in
      let low : level_lt e.level l ≡ false = ground (arith, h) in
      ap
        (λ b.
          if b
          then (true, o)
          else ((cls.do_write e o.sink).0, record o { sink = (cls.do_write e o.sink).1 }))
        low
      ∙ ap (λ (r : Bool × Sink N). (r.0, record o { sink = r.1 })) (ap (after_call ms) step)

  drain_step :
      (e : LogEvent) (q : Queue) (o o' : OutputStream (Sink N))
      → write cls e o ≡ (true, o')
      → drain cls (e ∷ q) o ≡ drain cls q o'
  unfolding drain
  drain_step e q o o' h =
      ap (λ (r : Bool × OutputStream (Sink N)). if r.0 then drain cls q r.1 else (e ∷ q, r.1)) h

  -- What the minimum lets through of the events behind the first.
  rest_of :
      (l : Level) (e : LogEvent) (q : Queue) {es : List LogEvent} {b : Bool}
      → clears l e ≡ b
      → keep_if (clears l) (e ∷ q) ≡ es
      → (if b then e ∷ keep_if (clears l) q else keep_if (clears l) q) ≡ es
  rest_of l e q h same =
      sym (ap (λ b. if b then e ∷ keep_if (clears l) q else keep_if (clears l) q) h) ∙ same

  -- The first loop of a turn makes these calls, and leaves nothing.
  drain_all :
      (l : Level) (q : Queue) (run : List (LogEvent × Meanwhile)) (s s' : Session N)
      → keep_if (clears l) q ≡ map (λ x. x.0) run
      → write_all os url order texts run s ≡ some (map (λ x. true) run, s')
      → drain cls q (stream l s (map (λ x. x.1) run)) ≡ ([], stream l s' [])
  unfolding drain write_all
  drain_all l [] [] s s' same h = let at : s ≡ s' = cc h in ap (λ x. ([], stream l x [])) at
  drain_all l [] (x ∷ run) s s' same h = ground (arith, same)
  drain_all l (e ∷ q) [] s s' same h = elim (Bool-cases (clears l e)) [
    | inl above ↦ ground (arith, rest_of l e q above same)
    | inr below ↦
        drain_step e q (stream l s []) (stream l s []) (write_below l e s [] below)
        ∙ drain_all l q [] s s' (rest_of l e q below same) h
  ]
  drain_all l (e ∷ q) ((d, m) ∷ run) s s' same h = elim (Bool-cases (clears l e)) [
    | inr below ↦
        let o = stream l s (m ∷ map (λ x. x.1) run) in
        drain_step e q o o (write_below l e s (m ∷ map (λ x. x.1) run) below)
        ∙ drain_all l q ((d, m) ∷ run) s s' (rest_of l e q below same) h
    | inl above ↦
        let both = rest_of l e q above same in
        let is_d : d ≡ e = cc both in
        let others : keep_if (clears l) q ≡ map (λ x. x.0) run = cc both in
        let (s1, step, later) = write_all_step d m run s s' h in
        drain_step e q (stream l s (m ∷ map (λ x. x.1) run)) (stream l s1 (map (λ x. x.1) run)) (
          write_above l e m (map (λ x. x.1) run) s s1 above
            (subst (λ x. do_write os url order m texts x s ≡ some (true, s1)) is_d step))
        ∙ drain_all l q run s1 s' others later
  ]

  turn_drained :
      (now : ℕ) (q : Queue) (o o' : OutputStream (Sink N))
      → drain cls q o ≡ ([], o')
      → Retry.turn cls now q o ≡ ([], o', false)
  unfolding Retry.turn expire active
  turn_drained now q o o' h = rw (h, Retry.turn) refl

  -- The turn ends the thread, with the packets of `run` sent over the new connection.
  abbrev pub Delivers :
      Level → ℕ → Queue → List Bytes → List (LogEvent × Meanwhile) → Session N → Type 0
  Delivers l now q bufs run s =
      (s1 : Session N) × (ps : List Bytes) × (s' : Session N) × (connect os url order (some bufs) s
        ≡ some (true, s1))
      × (packets order texts s.connection.m_receipt run ≡ some ps)
      × (Retry.turn cls now q (stream l s (map (λ x. x.1) run)) ≡ ([], stream l s' [], false))
      × (s'.m_socket ≡ send_all os ps s1.m_socket)
      × IsIdle s'

  -- The retry thread's turn after a write that has started connect_thread, which ends between the two
  -- tests of connect in the first call of do_write. Nothing is left of a connection before, the
  -- server greets the sink and answers each packet in time with its receipt, and the system takes
  -- every byte. Then the turn sends just the packets of the queued events that the minimum lets
  -- through, in their order, over the new connection, empties the queue and ends the thread.
  pub turn-Delivers :
      (l : Level) (now : ℕ) (q : Queue) (bufs : List Bytes) (e : LogEvent) (m : Meanwhile)
      (rest : List (LogEvent × Meanwhile)) (s : Session N)
      → Permᴰ order replacements
      → Sends os
      → IsConnecting s
      → Greets os url bufs s.m_socket
      → m.connect_thread ≡ some bufs
      → Answers s.connection.m_receipt ((e, m) ∷ rest)
      → keep_if (clears l) q ≡ map (λ x. x.0) ((e, m) ∷ rest)
      → Delivers l now q bufs ((e, m) ∷ rest) s
  turn-Delivers l now q bufs e m rest s p sends k greets at answers same =
      let (s1, ps, s', up, made, wrote, socket, holds) =
        greeted_delivers os url order bufs m texts e rest s p sends k greets at answers in
      (
        s1,
        ps,
        s',
        up,
        made,
        turn_drained now q (stream l s (map (λ x. x.1) ((e, m) ∷ rest))) (stream l s' [])
            (drain_all l q ((e, m) ∷ rest) s s' same wrote),
        socket,
        holds,
      )
