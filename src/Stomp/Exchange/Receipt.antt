-- ===== src/Stomp/Exchange/Receipt.antt =====
-- The server's receipt for a packet, as the reader thread takes it.
use epics_logfile.Base.{
  ℕ, ◌≡◌, refl, ap, ◌∙◌, true, List, [], ◌∷◌, ◌++◌, some, Bytes, codes, Lacks, All,
}
use epics_logfile.Base.Decimal.{decimal}
use epics_logfile.Base.Map.{find, bytes_key}
use epics_logfile.Stomp.Reply.{Reply, parse_frame}
use epics_logfile.Stomp.Header.{render_frame, IsHeader, parse_frame-render_frame}
use epics_logfile.Stomp.Reader.{Reader, read_blocks}
use epics_logfile.Stomp.Machine.{take_bytes, take_bytes_nil}
use epics_logfile.Stomp.Stream.{
  joined, read_blocks-take_bytes, take_frame, extended, BeginsWithData,
}
use epics_logfile.Stomp.Greeting.Leftover.{end_frame_read}

-- A receipt, without the NUL that ends the frame.
abbrev pub receipt_frame : List (Bytes × Bytes) → Bytes
receipt_frame headers = render_frame (codes "RECEIPT") headers []

-- The blocks are the receipt with the number `n`, however they cut it.
abbrev pub IsReceipt : ℕ → List Bytes → Type 0
IsReceipt n bufs =
    (headers : List (Bytes × Bytes)) × All IsHeader headers
    × Lacks 0 (receipt_frame headers)
    × (find (codes "receipt-id") headers ≡ some (decimal n))
    × (joined bufs ≡ receipt_frame headers ++ 0 ∷ [])

-- The reply names the number `n`.
abbrev pub Names : ℕ → Reply → Type 0
Names n reply =
    (reply.command ≡ codes "RECEIPT") × (find (codes "receipt-id") reply.headers ≡ some (decimal n))

-- Between two replies, the reader puts the receipt behind the replies that are waiting.
pub read_blocks-IsReceipt :
    (n : ℕ) (bufs : List Bytes) (r : Reader)
    → r.connected ≡ true
    → r.m_partial_reply ≡ []
    → IsReceipt n bufs
    → (reply : Reply) × (read_blocks bufs r
        ≡ some (record r { m_partial_reply = []; m_reply_queue = r.m_reply_queue ++ reply ∷ [] }))
      × Names n reply
unfolding render_frame BeginsWithData
read_blocks-IsReceipt n bufs r on clear (headers, ok, free, number, all) =
    let frame = receipt_frame headers in
    let (reply, read, name, body, values) =
      parse_frame-render_frame (codes "RECEIPT") headers [] refl ok in
    let here = ap parse_frame (ap (λ x. x ++ frame) clear) ∙ read in
    (
      reply,
      read_blocks-take_bytes bufs r
          ∙ ap (λ x. some (take_bytes x r)) all
          ∙ ap some (
              take_frame frame [] r on free refl
              ∙ take_bytes_nil _
              ∙ end_frame_read (extended frame r) here),
      (name, values (codes "receipt-id") ∙ number),
    )
