-- ===== src/Stomp/Reply.antt =====
-- handle_reply, check_server_version and parse_heartbeat: the frames that the server sends.
use epics_logfile.Base.{
  ℕ, zero, suc, ◌+◌, ◌-◌, ◌*◌, Bool, true, false, ◌&&◌, List, [], ◌∷◌, Option, none, some, Bytes,
  codes, bytes_eq, is_empty, length, substr, substr_from, find_byte, find_byte_from, leb, ◌==◌,
  if◌then◌else◌,
}
use epics_logfile.Base.Decimal.{is_digit}
use epics_logfile.Base.Map.{find, emplace, bytes_key}

-- stomp_reply.
pub record Reply : Type 0 where
  pub command : Bytes
  pub headers : List (Bytes × Bytes)
  pub body : Bytes

-- A header line; the first of several with the same key counts.
unfoldable pub add_header : Bytes → List (Bytes × Bytes) → Option (List (Bytes × Bytes))
add_header line headers = elim (find_byte b':' line) [
  | none ↦ none
  | some colon ↦ some (emplace (substr line 0 colon) (substr_from line (colon + 1)) headers)
]

-- The loop over the headers: `oldi` is the start of a line. The result is the headers and the
-- start of the body; `none` also means that the fuel ran out.
unfoldable pub parse_headers :
    ℕ → Bytes → ℕ → List (Bytes × Bytes) → Option (List (Bytes × Bytes) × ℕ)
unfolding add_header
parse_headers zero frame oldi headers = none
parse_headers (suc fuel) frame oldi headers = elim (find_byte_from b'\n' frame oldi) [
  | none ↦ none
  | some i ↦
      if i == oldi
      then some (headers, i + 1)
      else elim (add_header (substr frame oldi (i - oldi)) headers) [
        | none ↦ none
        | some headers' ↦ parse_headers fuel frame (i + 1) headers'
      ]
]

-- The frame's parts. The tests for an overrun never hold, as `i` is the position of a byte.
unfoldable pub parse_frame : Bytes → Option Reply
unfolding parse_headers
parse_frame frame = elim (find_byte b'\n' frame) [
  | none ↦ none
  | some i ↦ elim (parse_headers (suc (length frame)) frame (i + 1) []) [
    | none ↦ none
    | some (headers, start) ↦
        some
          (record { command = substr frame 0 i; headers = headers; body = substr_from frame start })
  ]
]

unfoldable pub check_server_version : Reply → Bool
check_server_version reply = elim (find (codes "version") reply.headers) [
  | none ↦ false
  | some version ↦ bytes_eq version (codes "1.1")
]

-- ::strtol with base 10, of a text without a NUL, that is not above LONG_MAX: is the value
-- negative, its size, and the text from *endptr on.
digits_end : ℕ → Bytes → ℕ × Bytes
digits_end acc [] = (acc, [])
digits_end acc (c ∷ cs) =
    let on = digits_end (acc * 10 + (c - b'0')) cs in if is_digit c then on else (acc, c ∷ cs)

-- Without a digit, nothing has been read of `whole`.
unsigned : Bool → Bytes → Bytes → Bool × ℕ × Bytes
unfolding digits_end
unsigned negative whole [] = (false, 0, whole)
unsigned negative whole (c ∷ cs) =
    let (n, rest) = digits_end 0 (c ∷ cs) in
    if is_digit c then (negative, n, rest) else (false, 0, whole)

with_sign : Bytes → Bytes → Bool × ℕ × Bytes
unfolding unsigned
with_sign whole [] = (false, 0, whole)
with_sign whole (c ∷ cs) =
    if c == b'-'
    then unsigned true whole cs
    else if c == b'+'
    then unsigned false whole cs
    else unsigned false whole (c ∷ cs)

without_space : Bytes → Bytes
without_space [] = []
without_space (c ∷ cs) =
    let rest = without_space cs in
    if c == b' ' then rest else if leb 9 c && leb c 13 then rest else c ∷ cs

strtol : Bytes → Bool × ℕ × Bytes
unfolding with_sign without_space
strtol s = with_sign s (without_space s)

-- parse_heartbeat: does it accept the reply, and the new m_heartbeat_interval, with its sign.
unfoldable pub parse_heartbeat : Reply → (Bool × ℕ) → Bool × (Bool × ℕ)
unfolding strtol
parse_heartbeat reply interval = elim (find (codes "heart-beat") reply.headers) [
  | none ↦ (true, (false, 0))
  | some hb ↦ elim (find_byte b',' hb) [
    | none ↦ (false, interval)
    | some comma ↦
        let sy = substr_from hb (comma + 1) in
        let (negative, n, rest) = strtol (substr hb 0 comma) in
        if bytes_eq sy (codes "0") then (is_empty rest, (negative, n)) else (false, interval)
  ]
]
