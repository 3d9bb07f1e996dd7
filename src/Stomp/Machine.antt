-- ===== src/Stomp/Machine.antt =====
-- A machine that takes the bytes from the server one at a time.
use epics_logfile.Base.{
  ℕ, ◌≡◌, refl, sym, ap, ◌∙◌, inl, inr, Bool, true, false, ◌&&◌, [], ◌∷◌, ◌++◌, Bytes, is_empty,
  Bool-cases, ◌==◌, if◌then◌else◌,
}
use epics_logfile.Stomp.Reader.{Reader, end_frame}

-- A heartbeat, the end of a reply, or a byte of a reply.
unfoldable pub on_byte : Bool → Bool → ℕ → Reader → Reader
on_byte true ends c r = r
on_byte false true c r = end_frame r
on_byte false false c r = record r { m_partial_reply = r.m_partial_reply ++ c ∷ [] }

unfoldable pub take_byte : ℕ → Reader → Reader
unfolding on_byte
take_byte c r = on_byte (c == b'\n' && is_empty r.m_partial_reply) (c == 0) c r

-- The bytes one after the other, while the reader is connected.
unfoldable pub take_bytes : Bytes → Reader → Reader
unfolding take_byte
take_bytes [] r = r
take_bytes (c ∷ cs) r =
    let later = take_bytes cs (take_byte c r) in if r.connected then later else r

pub take_on :
    (c : ℕ) (cs : Bytes) (r : Reader)
    → r.connected ≡ true
    → take_bytes (c ∷ cs) r ≡ take_bytes cs (take_byte c r)
unfolding take_bytes
take_on c cs r h = ap (λ b. if b then take_bytes cs (take_byte c r) else r) h

pub take_bytes_stopped : (s : Bytes) (r : Reader) → r.connected ≡ false → take_bytes s r ≡ r
unfolding take_bytes
take_bytes_stopped [] r h = refl
take_bytes_stopped (c ∷ cs) r h = ap (λ b. if b then take_bytes cs (take_byte c r) else r) h

pub take_bytes_nil : (r : Reader) → take_bytes [] r ≡ r
unfolding take_bytes
take_bytes_nil r = refl

pub take_bytes-append :
    (s t : Bytes) (r : Reader) → take_bytes (s ++ t) r ≡ take_bytes t (take_bytes s r)
take_bytes-append [] t r = ap (take_bytes t) (sym (take_bytes_nil r))
take_bytes-append (c ∷ s) t r = elim (Bool-cases r.connected) [
  | inl on ↦
      take_on c (s ++ t) r on
      ∙ take_bytes-append s t (take_byte c r)
      ∙ ap (take_bytes t) (sym (take_on c s r on))
  | inr off ↦
      take_bytes_stopped (c ∷ (s ++ t)) r off
      ∙ sym (take_bytes_stopped t r off)
      ∙ ap (take_bytes t) (sym (take_bytes_stopped (c ∷ s) r off))
]
