-- ===== src/Stomp/Stream.antt =====
-- The reader against a machine that takes one byte at a time: where a block ends does not matter.
use epics_logfile.Base.{
  ℕ, zero, suc, ◌<◌, ◌≤◌, ◌≡◌, refl, sym, ap, subst, ◌∙◌, inl, inr, true, false, ◌&&◌, List, [],
  ◌∷◌, ◌++◌, append-nil, append_assoc, Option, none, some, Bytes, is_empty, take, drop, length,
  length-append, find_byte, find_byte-some, find_byte-none, Lacks, Bool-cases, Option-cases, ◌==◌,
  if◌then◌else◌, arith,
}
use epics_logfile.Stomp.Reader.{
  Reader, end_frame, skip_heartbeats, start_of_data, read_block, read_blocks,
}
use epics_logfile.Stomp.Machine.{
  on_byte, take_byte, take_bytes, take_on, take_bytes_stopped, take_bytes_nil, take_bytes-append,
}

-- What the bytes do one by one.
take_heartbeat :
    (c : ℕ) (r : Reader)
    → (c == b'\n') ≡ true
    → is_empty r.m_partial_reply ≡ true
    → take_byte c r ≡ r
unfolding take_byte on_byte
take_heartbeat c r h e =
    let beat : (c == b'\n' && is_empty r.m_partial_reply) ≡ true = ground (arith, h, e) in
    ap (λ b. on_byte b (c == 0) c r) beat

take_end : (r : Reader) → take_byte 0 r ≡ end_frame r
unfolding take_byte on_byte
take_end r = refl

-- The reader with more of a reply.
abbrev pub extended : Bytes → Reader → Reader
extended s r = record r { m_partial_reply = r.m_partial_reply ++ s }

-- The byte is data.
IsData : ℕ → Reader → Type 0
IsData c r = ((c == 0) ≡ false) × ((c == b'\n' && is_empty r.m_partial_reply) ≡ false)

take_data : (c : ℕ) (r : Reader) → IsData c r → take_byte c r ≡ extended (c ∷ []) r
unfolding take_byte on_byte IsData
take_data c r h = ap (λ b. on_byte b (c == 0) c r) h.1 ∙ ap (λ b. on_byte false b c r) h.0

not_empty : (s : Bytes) (c : ℕ) → is_empty (s ++ c ∷ []) ≡ false
not_empty [] c = refl
not_empty (x ∷ s) c = refl

-- Bytes of a reply, of which the first is no heartbeat.
take_reply :
    (c : ℕ) (cs : Bytes) (r : Reader)
    → r.connected ≡ true
    → Lacks 0 (c ∷ cs)
    → (c == b'\n' && is_empty r.m_partial_reply) ≡ false
    → take_bytes (c ∷ cs) r ≡ extended (c ∷ cs) r
unfolding IsData
take_reply c [] r on l h =
    take_on c [] r on ∙ take_bytes_nil _ ∙ take_data c r (ground (arith, l, h))
take_reply c (d ∷ cs) r on l h =
    take_on c (d ∷ cs) r on
    ∙ ap (take_bytes (d ∷ cs)) (take_data c r (ground (arith, l, h)))
    ∙ take_reply d cs (extended (c ∷ []) r) on (ground (arith, l))
        (ground (arith, not_empty r.m_partial_reply c))
    ∙ ap (λ u. record r { m_partial_reply = u }) (append_assoc r.m_partial_reply (c ∷ []) (d ∷ cs))

take_heartbeats :
    (s : Bytes) (r : Reader)
    → r.connected ≡ true
    → is_empty r.m_partial_reply ≡ true
    → take_bytes s r ≡ take_bytes (skip_heartbeats s) r
unfolding skip_heartbeats
take_heartbeats [] r on e = refl
take_heartbeats (c ∷ cs) r on e = elim (Bool-cases (c == b'\n')) [
  | inl beat ↦
      take_on c cs r on
      ∙ ap (take_bytes cs) (take_heartbeat c r beat e)
      ∙ take_heartbeats cs r on e
      ∙ ap (λ b. take_bytes (if b then skip_heartbeats cs else c ∷ cs) r) (sym beat)
  | inr data_ ↦ ap (λ b. take_bytes (if b then skip_heartbeats cs else c ∷ cs) r) (sym data_)
]

-- Heartbeats are skipped, and what is left does not begin with one.
take_start :
    (s : Bytes) (r : Reader)
    → r.connected ≡ true
    → take_bytes s r ≡ take_bytes (start_of_data r.m_partial_reply s) r
unfolding start_of_data
take_start s r on = elim (Bool-cases (is_empty r.m_partial_reply)) [
  | inl e ↦
      take_heartbeats s r on e ∙ ap (λ b. take_bytes (if b then skip_heartbeats s else s) r) (sym e)
  | inr e ↦ ap (λ b. take_bytes (if b then skip_heartbeats s else s) r) (sym e)
]

unfoldable pub BeginsWithData : Bytes → Bytes → Type 0
BeginsWithData partial_ [] = Unit
BeginsWithData partial_ (c ∷ cs) = (c == b'\n' && is_empty partial_) ≡ false

skip_heartbeats-BeginsWithData : (partial_ s : Bytes) → BeginsWithData partial_ (skip_heartbeats s)
unfolding skip_heartbeats BeginsWithData
skip_heartbeats-BeginsWithData partial_ [] = tt
skip_heartbeats-BeginsWithData partial_ (c ∷ cs) = elim (Bool-cases (c == b'\n')) [
  | inl beat ↦
      subst (λ b. BeginsWithData partial_ (if b then skip_heartbeats cs else c ∷ cs)) (sym beat)
        (skip_heartbeats-BeginsWithData partial_ cs)
  | inr data_ ↦
      subst (λ b. BeginsWithData partial_ (if b then skip_heartbeats cs else c ∷ cs)) (sym data_)
        (ground (arith, data_))
]

any-BeginsWithData : (partial_ s : Bytes) → is_empty partial_ ≡ false → BeginsWithData partial_ s
unfolding BeginsWithData
any-BeginsWithData partial_ [] e = tt
any-BeginsWithData partial_ (c ∷ cs) e = ground (arith, e)

start_of_data-BeginsWithData :
    (partial_ s : Bytes) → BeginsWithData partial_ (start_of_data partial_ s)
unfolding start_of_data
start_of_data-BeginsWithData partial_ s = elim (Bool-cases (is_empty partial_)) [
  | inl e ↦
      subst (λ b. BeginsWithData partial_ (if b then skip_heartbeats s else s)) (sym e)
        (skip_heartbeats-BeginsWithData partial_ s)
  | inr e ↦
      subst (λ b. BeginsWithData partial_ (if b then skip_heartbeats s else s)) (sym e)
        (any-BeginsWithData partial_ s e)
]

BeginsWithData-prefix :
    (partial_ s t : Bytes) → BeginsWithData partial_ (s ++ t) → BeginsWithData partial_ s
unfolding BeginsWithData
BeginsWithData-prefix partial_ [] t h = tt
BeginsWithData-prefix partial_ (c ∷ cs) t h = h

take_all_data :
    (s : Bytes) (r : Reader)
    → r.connected ≡ true
    → Lacks 0 s
    → BeginsWithData r.m_partial_reply s
    → take_bytes s r ≡ extended s r
unfolding BeginsWithData
take_all_data [] r on l b =
    take_bytes_nil r
    ∙ ap (λ u. record r { m_partial_reply = u }) (sym (append-nil r.m_partial_reply))
take_all_data (c ∷ cs) r on l b = take_reply c cs r on l b

-- A reply and its end.
pub take_frame :
    (s t : Bytes) (r : Reader)
    → r.connected ≡ true
    → Lacks 0 s
    → BeginsWithData r.m_partial_reply (s ++ 0 ∷ t)
    → take_bytes (s ++ 0 ∷ t) r ≡ take_bytes t (end_frame (extended s r))
take_frame s t r on l b =
    take_bytes-append s (0 ∷ t) r
    ∙ ap (take_bytes (0 ∷ t))
        (take_all_data s r on l (BeginsWithData-prefix r.m_partial_reply s (0 ∷ t) b))
    ∙ take_on 0 t (extended s r) on
    ∙ ap (take_bytes t) (take_end (extended s r))

length-skip_heartbeats : (s : Bytes) → length (skip_heartbeats s) ≤ length s
unfolding skip_heartbeats
length-skip_heartbeats [] = omega arith
length-skip_heartbeats (c ∷ cs) = ground (arith, length-skip_heartbeats cs)

length-start_of_data : (partial_ s : Bytes) → length (start_of_data partial_ s) ≤ length s
unfolding start_of_data
length-start_of_data partial_ s = ground (arith, length-skip_heartbeats s)

-- The loop over a block does what the bytes one by one do.
pub read_block-take_bytes :
    (fuel : ℕ) (buf : Bytes) (r : Reader)
    → length buf < fuel
    → r.connected ≡ true
    → read_block fuel buf r ≡ some (take_bytes buf r)
unfolding read_block
read_block-take_bytes zero buf r h on = ground arith
read_block-take_bytes (suc fuel) buf r h on =
    let sod = start_of_data r.m_partial_reply buf in
    let begins = start_of_data-BeginsWithData r.m_partial_reply buf in
    elim (Option-cases (find_byte 0 sod)) [
      | inl free ↦
          rw (free, read_block)
            (ap some (
              sym
                (take_start buf r on ∙ take_all_data sod r on (find_byte-none 0 sod free) begins)))
      | inr (i, hit) ↦
          let (cut, lacks) = find_byte-some 0 sod i hit in
          let s = take i sod in
          let t = drop (suc i) sod in
          let r' = end_frame (extended s r) in
          let whole : take_bytes buf r ≡ take_bytes t r' =
            take_start buf r on
            ∙ ap (λ u. take_bytes u r) cut
            ∙ take_frame s t r on lacks (subst (BeginsWithData r.m_partial_reply) cut begins) in
          let shorter : length t < fuel = omega (
            arith,
            ap length cut,
            length-append {0} s (0 ∷ t),
            length-start_of_data r.m_partial_reply buf,
          ) in
          rw (hit, read_block)
            (elim (Bool-cases r'.connected) [
              | inl go ↦
                  ap (λ b. if b then read_block fuel t r' else some r') go
                  ∙ read_block-take_bytes fuel t r' shorter go
                  ∙ ap some (sym whole)
              | inr stop ↦
                  ap (λ b. if b then read_block fuel t r' else some r') stop
                  ∙ ap some (sym (whole ∙ take_bytes_stopped t r' stop))
            ])
    ]

unfoldable pub joined : List Bytes → Bytes
joined [] = []
joined (buf ∷ bufs) = buf ++ joined bufs

-- reader_thread's loops end, and what they leave depends only on the bytes that the server has
-- sent, not on how the reads cut them into blocks.
pub read_blocks-take_bytes :
    (bufs : List Bytes) (r : Reader) → read_blocks bufs r ≡ some (take_bytes (joined bufs) r)
unfolding read_blocks joined
read_blocks-take_bytes [] r = ap some (sym (take_bytes_nil r))
read_blocks-take_bytes (buf ∷ bufs) r =
    let then_rest = λ (o : Option Reader). elim o as (λ _. Option Reader) [
      | none ↦ none
      | some r' ↦ read_blocks bufs r'
    ] in
    let block = read_block (suc (length buf)) buf r in
    elim (Bool-cases r.connected) [
      | inl on ↦
          ap (λ b. if b then then_rest block else some r) on
          ∙ ap then_rest (read_block-take_bytes (suc (length buf)) buf r (omega arith) on)
          ∙ read_blocks-take_bytes bufs (take_bytes buf r)
          ∙ ap some (sym (take_bytes-append buf (joined bufs) r))
      | inr off ↦
          ap (λ b. if b then then_rest block else some r) off
          ∙ ap some (sym (take_bytes_stopped (buf ++ joined bufs) r off))
    ]
