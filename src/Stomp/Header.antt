-- ===== src/Stomp/Header.antt =====
-- handle_reply reads a frame back as the server has put it together.
use epics_logfile.Base.{
  ℕ, zero, suc, ◌+◌, ◌-◌, ◌<◌, ◌≤◌, ◌≡◌, refl, sym, ap, ◌∙◌, inl, inr, true, false, List, [], ◌∷◌,
  ◌++◌, append-nil, append_assoc, Option, none, some, Bytes, length, length-append, Lacks,
  Lacks-append, find_byte_hit, find_byte_at, substr, substr_at, substr_from, substr_from_at,
  Option-cases, Bool-cases, bytes_eq, bytes_eq_iff, All, ◌==◌, arith,
}
use epics_logfile.Base.Map.{find, emplace, bytes_key, find-emplace_new, emplace_old}
use epics_logfile.Stomp.Reply.{Reply, add_header, parse_headers, parse_frame}

render_header : Bytes × Bytes → Bytes
render_header (key, value) = key ++ b':' ∷ value

-- Each header in a line of its own.
unfoldable pub render_headers : List (Bytes × Bytes) → Bytes
unfolding render_header
render_headers [] = []
render_headers (h ∷ hs) = render_header h ++ b'\n' ∷ render_headers hs

-- A frame without the NUL that ends it.
unfoldable pub render_frame : Bytes → List (Bytes × Bytes) → Bytes → Bytes
unfolding render_headers
render_frame command headers body = command ++ b'\n' ∷ (render_headers headers ++ b'\n' ∷ body)

-- A key has no colon, and neither part has a line feed.
unfoldable pub IsHeader : Bytes × Bytes → Type 0
IsHeader (key, value) = Lacks b':' key × Lacks b'\n' key × Lacks b'\n' value

-- The headers put into the map one after the other.
emplace_all : List (Bytes × Bytes) → List (Bytes × Bytes) → List (Bytes × Bytes)
emplace_all [] m = m
emplace_all ((k, v) ∷ hs) m = emplace_all hs (emplace k v m)

add_header-render_header :
    (h : Bytes × Bytes) (m : List (Bytes × Bytes))
    → IsHeader h
    → add_header (render_header h) m ≡ some (emplace h.0 h.1 m)
unfolding IsHeader render_header add_header
add_header-render_header (key, value) m ok =
    rw (find_byte_hit b':' key value ok.0, add_header)
      (rw
        (
          substr_at (key ++ b':' ∷ value) [] key (b':' ∷ value) 0 (length key) refl refl refl,
          substr_from_at (key ++ b':' ∷ value) (key ++ b':' ∷ []) value (length key + 1)
              (sym (append_assoc key (b':' ∷ []) value))
              (omega (arith, length-append {0} key (b':' ∷ []))),
        )
        refl)

render_header-Lacks : (h : Bytes × Bytes) → IsHeader h → Lacks b'\n' (render_header h)
unfolding IsHeader render_header
render_header-Lacks (key, value) ok =
    Lacks-append b'\n' key (b':' ∷ value) ok.1 (ground (arith, ok))

-- One round: the line `line`, from the position of its start.
parse_headers_line :
    (fuel : ℕ) (frame pre line rest : Bytes) (oldi : ℕ) (m m' : List (Bytes × Bytes))
    → frame ≡ pre ++ (line ++ b'\n' ∷ rest)
    → oldi ≡ length pre
    → Lacks b'\n' line
    → 1 ≤ length line
    → add_header line m ≡ some m'
    → parse_headers (suc fuel) frame oldi m ≡ parse_headers fuel frame (oldi + length line + 1) m'
unfolding parse_headers
parse_headers_line fuel frame pre line rest oldi m m' e at free long added =
    let hit = find_byte_at b'\n' frame pre line rest oldi e at free in
    let later : (oldi + length line == oldi) ≡ false = ground arith in
    let same : oldi + length line - oldi ≡ length line = omega arith in
    let cut = substr_at frame pre line (b'\n' ∷ rest) oldi (length line) e at refl in
    let then_rest = λ (o : Option (List (Bytes × Bytes))).
      elim o as (λ _. Option (List (Bytes × Bytes) × ℕ)) [
        | none ↦ none
        | some headers ↦ parse_headers fuel frame (oldi + length line + 1) headers
      ] in
    rw (hit, parse_headers)
      (rw later
        (ap then_rest (ap (λ u. add_header u m) (ap (substr frame oldi) same ∙ cut) ∙ added)))

parse_headers_end :
    (fuel : ℕ) (frame pre rest : Bytes) (oldi : ℕ) (m : List (Bytes × Bytes))
    → frame ≡ pre ++ b'\n' ∷ rest
    → oldi ≡ length pre
    → parse_headers (suc fuel) frame oldi m ≡ some (m, oldi + 1)
unfolding parse_headers
parse_headers_end fuel frame pre rest oldi m e at =
    let hit = find_byte_at b'\n' frame pre [] rest oldi e at refl in
    let stays : (oldi + 0 == oldi) ≡ true = ground arith in
    let same : oldi + 0 ≡ oldi = omega arith in rw (hit, parse_headers) (rw (stays, same) refl)

render_header_long : (h : Bytes × Bytes) → 1 ≤ length (render_header h)
unfolding render_header
render_header_long (key, value) = omega (arith, length-append {0} key (b':' ∷ value))

parse_headers-All :
    (hs : List (Bytes × Bytes)) (fuel : ℕ) (frame pre body : Bytes) (oldi : ℕ)
    (m : List (Bytes × Bytes))
    → frame ≡ pre ++ (render_headers hs ++ b'\n' ∷ body)
    → oldi ≡ length pre
    → length hs < fuel
    → All IsHeader hs
    → parse_headers fuel frame oldi m
      ≡ some (emplace_all hs m, length (pre ++ render_headers hs) + 1)
unfolding emplace_all render_headers
parse_headers-All hs zero frame pre body oldi m e at enough ok = ground arith
parse_headers-All [] (suc fuel) frame pre body oldi m e at enough ok =
    parse_headers_end fuel frame pre body oldi m e at
    ∙ ap (λ n. some (m, n + 1)) (at ∙ ap length (sym (append-nil pre)))
parse_headers-All (h ∷ hs) (suc fuel) frame pre body oldi m e at enough ok =
    let line = render_header h in
    let rest = render_headers hs ++ b'\n' ∷ body in
    let cut : frame ≡ pre ++ (line ++ b'\n' ∷ rest) =
      e ∙ ap (λ u. pre ++ u) (append_assoc line (b'\n' ∷ render_headers hs) (b'\n' ∷ body)) in
    let pre' = pre ++ (line ++ b'\n' ∷ []) in
    let cut' : frame ≡ pre' ++ rest =
      cut
      ∙ ap (λ u. pre ++ u) (sym (append_assoc line (b'\n' ∷ []) rest))
      ∙ sym (append_assoc pre (line ++ b'\n' ∷ []) rest) in
    let at' : oldi + length line + 1 ≡ length pre' =
      omega
        (arith, length-append {0} pre (line ++ b'\n' ∷ []), length-append {0} line (b'\n' ∷ [])) in
    parse_headers_line fuel frame pre line rest oldi m _ cut at (render_header-Lacks h ok.0)
      (render_header_long h) (add_header-render_header h m ok.0)
    ∙ parse_headers-All hs fuel frame pre' body (oldi + length line + 1) (emplace h.0 h.1 m) cut'
        at' (omega arith) ok.1
    ∙ ap (λ u. some (emplace_all hs (emplace h.0 h.1 m), length u + 1))
        (append_assoc pre (line ++ b'\n' ∷ []) (render_headers hs)
          ∙ ap (λ u. pre ++ u) (append_assoc line (b'\n' ∷ []) (render_headers hs)))

length-render_headers : (hs : List (Bytes × Bytes)) → length hs ≤ length (render_headers hs)
unfolding render_headers
length-render_headers [] = omega arith
length-render_headers (h ∷ hs) = omega (
  arith,
  length-render_headers hs,
  length-append {0} (render_header h) (b'\n' ∷ render_headers hs),
)

or_else : Option Bytes → Option Bytes → Option Bytes
or_else none o = o
or_else (some v) o = some v

or_else-none : (o : Option Bytes) → or_else o none ≡ o
unfolding or_else
or_else-none none = refl
or_else-none (some v) = refl

-- An emplace does not change what is found first.
find-emplace :
    (j k v : Bytes) (m hs : List (Bytes × Bytes))
    → or_else (find k (emplace j v m)) (find k hs) ≡ or_else (find k m) (find k ((j, v) ∷ hs))
unfolding or_else find
find-emplace j k v m hs = elim (Option-cases (find j m)) [
  | inl new ↦ rw (find-emplace_new j k v m new) (elim (Bool-cases (bytes_eq j k)) [
    | inl same ↦
        let e : find k m ≡ none = ap (λ u. find u m) (sym ((bytes_eq_iff j k).0 same)) ∙ new in
        rw (same, e) refl
    | inr other ↦ rw other refl
  ])
  | inr (w, old) ↦ rw (emplace_old j v m old) (elim (Bool-cases (bytes_eq j k)) [
    | inl same ↦
        let e : find k m ≡ some w = ap (λ u. find u m) (sym ((bytes_eq_iff j k).0 same)) ∙ old in
        rw (e) refl
    | inr other ↦ rw other refl
  ])
]

-- The header of several with the same key that counts is the first.
find-emplace_all :
    (hs m : List (Bytes × Bytes)) (k : Bytes)
    → find k (emplace_all hs m) ≡ or_else (find k m) (find k hs)
unfolding emplace_all find or_else
find-emplace_all [] m k = sym (or_else-none (find k m))
find-emplace_all ((j, v) ∷ hs) m k = find-emplace_all hs (emplace j v m) k ∙ find-emplace j k v m hs

-- A frame made of a command without a line feed, header lines whose keys have no colon, and a body
-- is read: the command and the body are those, and each key has the first value given for it.
pub parse_frame-render_frame :
    (command : Bytes) (headers : List (Bytes × Bytes)) (body : Bytes)
    → Lacks b'\n' command
    → All IsHeader headers
    → (reply : Reply) × (parse_frame (render_frame command headers body) ≡ some reply)
      × (reply.command ≡ command)
      × (reply.body ≡ body)
      × ((k : Bytes) → find k reply.headers ≡ find k headers)
unfolding parse_frame render_frame find or_else
parse_frame-render_frame command headers body free ok =
    let frame = render_frame command headers body in
    let hit = find_byte_hit b'\n' command (render_headers headers ++ b'\n' ∷ body) free in
    let build = λ (o : Option (List (Bytes × Bytes) × ℕ)). elim o as (λ _. Option Reply) [
      | none ↦ none
      | some (headers, start) ↦ some (record {
        command = substr frame 0 (length command);
        headers = headers;
        body = substr_from frame start;
      })
    ] in
    let pre = command ++ b'\n' ∷ [] in
    let rest = render_headers headers ++ b'\n' ∷ body in
    let cut : frame ≡ pre ++ rest = sym (append_assoc command (b'\n' ∷ []) rest) in
    let at : length command + 1 ≡ length pre =
      omega (arith, length-append {0} command (b'\n' ∷ [])) in
    let enough : length headers < suc (length frame) = omega (
      arith,
      length-render_headers headers,
      ap length cut,
      length-append {0} pre rest,
      length-append {0} (render_headers headers) (b'\n' ∷ body),
    ) in
    let parsed =
      parse_headers-All headers (suc (length frame)) frame pre body (length command + 1) [] cut at
        enough ok in
    let start = length (pre ++ render_headers headers) + 1 in
    let before = pre ++ (render_headers headers ++ b'\n' ∷ []) in
    let cut' : frame ≡ before ++ body =
      cut
      ∙ ap (λ u. pre ++ u) (sym (append_assoc (render_headers headers) (b'\n' ∷ []) body))
      ∙ sym (append_assoc pre (render_headers headers ++ b'\n' ∷ []) body) in
    let at' : start ≡ length before = omega (
      arith,
      length-append {0} pre (render_headers headers),
      length-append {0} pre (render_headers headers ++ b'\n' ∷ []),
      length-append {0} (render_headers headers) (b'\n' ∷ []),
    ) in
    (
      record {
        command = substr frame 0 (length command);
        headers = emplace_all headers [];
        body = substr_from frame start;
      },
      rw (hit, parse_frame) (ap build parsed),
      substr_at frame [] command (b'\n' ∷ rest) 0 (length command) refl refl refl,
      substr_from_at frame before body start cut' at',
      λ k. find-emplace_all headers [] k,
    )
