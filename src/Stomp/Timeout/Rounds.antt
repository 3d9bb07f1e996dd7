-- ===== src/Stomp/Timeout/Rounds.antt =====
-- reader_thread over the socket against the reading of blocks.
use epics_logfile.Base.{
  ℕ, zero, suc, ◌≤◌, ◌≡◌, ◌⊎◌, refl, sym, ap, subst, ◌∙◌, inl, inr, Bool, true, false, not, ◌&&◌,
  ◌||◌, List, [], ◌∷◌, Option, none, some, Bytes, is_empty, length, if◌then◌else◌, Result, ok,
  throw, runtime_error, codes, arith, Bool-cases,
}
use epics_logfile.Tcp
use epics_logfile.Tcp.{System, Got, Socket, select_read}
use epics_logfile.Tcp.Connect.{select_read-connected}
use epics_logfile.Stomp.Reader.{Reader, start_of_data, read_block, read_blocks}
use epics_logfile.Stomp.Machine.{take_bytes}
use epics_logfile.Stomp.Stream.{read_block-take_bytes}
use epics_logfile.Stomp.Timeout.{
  Attempt, bytes_read, fetch, fetched, waited, attempt, read_once, read_twice, read_with_timeout,
  closed_unless, on_read, reader_rounds,
}
use epics_logfile.Stomp.Timeout.Calls.{
  blocks, got_blocks, Took, Took-nothing, Took-trans, select_read-Took, recv-Took,
}

-- What so many rounds come to: `bufs` are the bytes that the system has given meanwhile, read by
-- read, and the reader has come to what read_blocks makes of them.
abbrev pub Reads :
    {N A : Type 0} → System N A → ℕ → Reader → N → Option (Reader × Bool × Socket N × Bool) → Type 0
Reads {N} os k r n result =
    (bufs : List Bytes) × (last : Bool) × (s' : Socket N) × (ended : Bool) × (r' : Reader) × (result
      ≡ some (r', last, s', ended))
    × Took os n bufs s'.net
    × (read_blocks bufs r ≡ some r')
    × (length bufs ≤ k)
    × ((ended ≡ false) ⊎ (s'.connected ≡ false))

read_blocks_on :
    (buf : Bytes) (bufs : List Bytes) (r : Reader) {r' : Reader}
    → r.connected ≡ true
    → read_block (suc (length buf)) buf r ≡ some r'
    → read_blocks (buf ∷ bufs) r ≡ read_blocks bufs r'
unfolding read_blocks
read_blocks_on buf bufs r on block =
    let then_rest = λ (o : Option Reader). elim o as (λ _. Option Reader) [
      | none ↦ none
      | some r' ↦ read_blocks bufs r'
    ] in
    ap (λ b. if b then then_rest (read_block (suc (length buf)) buf r) else some r) on
    ∙ ap then_rest block

module _ {N A : Type 0} (os : System N A) where
  given_by : Attempt → List Bytes
  given_by Attempt.nothing = []
  given_by Attempt.failed = []
  given_by (Attempt.bytes b) = blocks b

  result_blocks : Result Bytes → List Bytes
  result_blocks (throw x) = []
  result_blocks (ok b) = blocks b

  bytes_read-blocks : (g : Got) → got_blocks g ≡ result_blocks (bytes_read g)
  unfolding bytes_read result_blocks
  bytes_read-blocks Got.read_failed = refl
  bytes_read-blocks Got.ssl_read_failed = refl
  bytes_read-blocks (Got.got bytes) = refl

  -- Bytes come from a connection only, and it is still there.
  abbrev Open : Attempt → Socket N → Bool → Type 0
  Open Attempt.nothing s' on = s'.connected ≡ on
  Open Attempt.failed s' on = Unit
  Open (Attempt.bytes b) s' on = (s'.connected ≡ true) × (on ≡ true)

  -- They are those that the system has given since the state `n`.
  abbrev Came : N → Attempt × Socket N → Bool → Type 0
  Came n (a, s') on = Open a s' on × Took os n (given_by a) s'.net

  fetched-Came :
      (n : N) (r : Result Bytes) (s : Socket N)
      → s.connected ≡ true
      → Took os n (result_blocks r) s.net
      → Came n (fetched os (r, s)) s.connected
  unfolding fetched given_by result_blocks Tcp.disconnect
  fetched-Came n (throw x) s h took = (tt, took)
  fetched-Came n (ok b) s h took = ((h, h), took)

  waited-Came :
      (n : N) (len : ℕ) (r : Result Bool) (s : Socket N)
      → Took os n [] s.net
      → Came n (waited os len (r, s)) s.connected
  unfolding waited fetch fetched given_by Tcp.disconnect
  waited-Came n len (throw x) s took = (tt, took)
  waited-Came n len (ok false) s took = (refl, took)
  waited-Came n len (ok true) s took =
      let come : Bool → Result Bytes × Socket N = λ b.
        if b
        then (let (r, net) = os.recv len s.net in (bytes_read r, record s { net = net }))
        else (throw (runtime_error (codes "Not connected.")), s) in
      elim (Bool-cases s.connected) [
        | inl on ↦
            let (g, net) = os.recv len s.net in
            subst (λ b. Came n (fetched os (come b)) s.connected) (sym on)
              (fetched-Came n (bytes_read g) (record s { net = net }) on
                (subst (λ x. Took os n x net) (bytes_read-blocks g)
                  (Took-trans os [] (got_blocks g) n s.net net took (recv-Took os len s.net))))
        | inr off ↦ subst (λ b. Came n (fetched os (come b)) s.connected) (sym off) (tt, took)
      ]

  attempt-Came :
      (len timeout_us : ℕ) (s : Socket N) → Came s.net (attempt os len timeout_us s) s.connected
  unfolding attempt
  attempt-Came len timeout_us s =
      let (r, s') = select_read os timeout_us s in
      subst (Came s.net (waited os len (r, s'))) (select_read-connected os timeout_us s)
        (waited-Came s.net len r s' (select_read-Took os timeout_us s))

  -- What read_with_timeout gives.
  abbrev Read : N → Option Bytes × Bool × Socket N → Bool → Type 0
  Read n (none, last, s') on = Took os n [] s'.net
  Read n (some b, last, s') on = (s'.connected ≡ true) × (on ≡ true) × Took os n (blocks b) s'.net

  read_once-Read :
      (n : N) (last : Bool) (a : Attempt) (s : Socket N) (on : Bool)
      → Came n (a, s) on
      → Read n (read_once os last (a, s)) on
  unfolding read_once given_by
  read_once-Read n last Attempt.nothing s on (h, took) = took
  read_once-Read n last Attempt.failed s on (h, took) = took
  read_once-Read n last (Attempt.bytes b) s on (h, took) = (h.0, h.1, took)

  read_twice-Read :
      (n : N) (workaround : Bool) (len timeout_us : ℕ) (last : Bool) (a : Attempt) (s : Socket N)
      (on : Bool)
      → Came n (a, s) on
      → Read n (read_twice os workaround len timeout_us last (a, s)) on
  unfolding read_twice given_by
  read_twice-Read n workaround len timeout_us last Attempt.nothing s on (h, took) =
      elim (Bool-cases (workaround && last)) [
        | inl again ↦
            let (a, s') = attempt os len timeout_us s in
            let (still, more) = attempt-Came len timeout_us s in
            subst (λ b. Read n (if b then read_once os false (a, s') else (none, last, s)) on)
              (sym again)
              (read_once-Read n false a s' on
                (subst (Open a s') h still, Took-trans os [] (given_by a) n s.net s'.net took more))
        | inr over ↦
            subst
              (λ b.
                Read n
                  (if b then read_once os false (attempt os len timeout_us s) else (none, last, s))
                  on)
              (sym over) took
      ]
  read_twice-Read n workaround len timeout_us last Attempt.failed s on (h, took) = took
  read_twice-Read n workaround len timeout_us last (Attempt.bytes b) s on (h, took) =
      (h.0, h.1, took)

  read_with_timeout-Read :
      (workaround : Bool) (len timeout_us : ℕ) (last : Bool) (s : Socket N)
      → Read s.net (read_with_timeout os workaround len timeout_us last s) s.connected
  unfolding read_with_timeout
  read_with_timeout-Read workaround len timeout_us last s =
      let (a, s') = attempt os len timeout_us s in
      read_twice-Read s.net workaround len timeout_us last a s' s.connected
        (attempt-Came len timeout_us s)

  kept_net : (b : Bool) (s : Socket N) → (closed_unless os b s).net ≡ s.net
  unfolding closed_unless Tcp.disconnect
  kept_net true s = refl
  kept_net false s = refl

  kept_on : (b : Bool) (s : Socket N) → s.connected ≡ true → (closed_unless os b s).connected ≡ b
  unfolding closed_unless Tcp.disconnect
  kept_on true s h = h
  kept_on false s h = refl

  on_read-Reads :
      (k : ℕ) (go : Reader → Bool → Socket N → Option (Reader × Bool × Socket N × Bool)) (n : N)
      (r : Reader) (x : Option Bytes × Bool × Socket N)
      → ((r' : Reader) (last : Bool) (s : Socket N)
          → s.connected ≡ r'.connected
          → Reads os k r' s.net (go r' last s))
      → Read n x r.connected
      → Reads os (suc k) r n (on_read os go r x)
  unfolding on_read read_blocks Tcp.disconnect closed_unless
  on_read-Reads k go n r (none, last, s) ih took =
      ([], last, Tcp.disconnect s, true, r, refl, took, refl, omega arith, inr refl)
  on_read-Reads k go n r (some [], last, s) ih (h, on, took) =
      ([], last, Tcp.disconnect s, true, r, refl, took, refl, omega arith, inr refl)
  on_read-Reads k go n r (some (c ∷ cs), last, s) ih (h, on, took) =
      let r' = take_bytes (c ∷ cs) r in
      let block = read_block-take_bytes (suc (suc (length cs))) (c ∷ cs) r (omega arith) on in
      let last' = last || not (is_empty (start_of_data r.m_partial_reply (c ∷ cs))) in
      let closed = closed_unless os r'.connected s in
      let (bufs, l, s', ended, r'', run, more, read, few, over) =
        ih r' last' closed (kept_on r'.connected s h) in
      (
        (c ∷ cs) ∷ bufs,
        l,
        s',
        ended,
        r'',
        rw (block, on_read) run,
        Took-trans os ((c ∷ cs) ∷ []) bufs n s.net s'.net took
            (subst (λ m. Took os m bufs s'.net) (kept_net r'.connected s) more),
        read_blocks_on (c ∷ cs) bufs r on block ∙ read,
        omega (arith, few),
        over,
      )

  -- After any number of rounds, the reader has come to what read_blocks makes of the bytes that the
  -- system has given meanwhile, read by read, and a thread that has ended has left the socket
  -- disconnected. The reader and the socket agree on whether there is a connection.
  pub reader_rounds-Reads :
      (workaround : Bool) (timeout : ℕ → ℕ) (k : ℕ) (r : Reader) (last : Bool) (s : Socket N)
      → s.connected ≡ r.connected
      → Reads os k r s.net (reader_rounds os workaround timeout k r last s)
  unfolding reader_rounds read_blocks
  reader_rounds-Reads workaround timeout zero r last s h =
      ([], last, s, false, r, refl, Took-nothing os s.net, refl, omega arith, inl refl)
  reader_rounds-Reads workaround timeout (suc k) r last s h =
      let x = read_with_timeout os workaround 1536 (timeout k) last s in
      on_read-Reads k (reader_rounds os workaround timeout k) s.net r x
        (λ r' last' s'. reader_rounds-Reads workaround timeout k r' last' s')
        (subst (Read s.net x) h (read_with_timeout-Read workaround 1536 (timeout k) last s))
