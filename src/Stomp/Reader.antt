-- ===== src/Stomp/Reader.antt =====
-- reader_thread: frames and heartbeats in the bytes from the server, block by block.
use epics_logfile.Base.{
  ℕ, zero, suc, Bool, true, false, ◌&&◌, List, [], ◌∷◌, ◌++◌, Option, none, some, Bytes, is_empty,
  take, drop, length, find_byte, ◌==◌, if◌then◌else◌,
}
use epics_logfile.Stomp.Reply.{Reply, parse_frame}

-- What reader_thread changes. After disconnect() the next read fails, and the thread ends.
pub record Reader : Type 0 where
  pub m_partial_reply : Bytes
  pub m_reply_queue : List Reply
  pub connected : Bool

-- handle_reply: a frame that can be read is put into the queue. The log messages that an ERROR
-- frame gives are left out.
unfoldable pub handle_reply : Bytes → Reader → Bool × Reader
unfolding parse_frame
handle_reply frame r = elim (parse_frame frame) [
  | none ↦ (false, r)
  | some reply ↦ (true, record r { m_reply_queue = r.m_reply_queue ++ reply ∷ [] })
]

-- A reply is complete.
unfoldable pub end_frame : Reader → Reader
unfolding handle_reply
end_frame r =
    let (done, r') = handle_reply r.m_partial_reply r in
    record r' { m_partial_reply = []; connected = r'.connected && done }

-- Line feeds between two replies are heartbeats.
unfoldable pub skip_heartbeats : Bytes → Bytes
skip_heartbeats [] = []
skip_heartbeats (c ∷ cs) = let rest = skip_heartbeats cs in if c == b'\n' then rest else c ∷ cs

unfoldable pub start_of_data : Bytes → Bytes → Bytes
unfolding skip_heartbeats
start_of_data partial_ buf = if is_empty partial_ then skip_heartbeats buf else buf

-- The loop over one block: append up to the first NUL; it ends a reply. `none` means that the fuel
-- ran out.
unfoldable pub read_block : ℕ → Bytes → Reader → Option Reader
unfolding start_of_data end_frame
read_block zero buf r = none
read_block (suc fuel) buf r =
    let sod = start_of_data r.m_partial_reply buf in
    elim (find_byte 0 sod) [
      | none ↦ some (record r { m_partial_reply = r.m_partial_reply ++ sod })
      | some i ↦
          let r' = end_frame (record r { m_partial_reply = r.m_partial_reply ++ take i sod }) in
          let rest = read_block fuel (drop (suc i) sod) r' in if r'.connected then rest else some r'
    ]

-- The thread, for the blocks that the reads give.
unfoldable pub read_blocks : List Bytes → Reader → Option Reader
unfolding read_block
read_blocks [] r = some r
read_blocks (buf ∷ bufs) r =
    if r.connected
    then elim (read_block (suc (length buf)) buf r) [ none ↦ none | some r' ↦ read_blocks bufs r' ]
    else some r
