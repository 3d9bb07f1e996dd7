-- ===== src/ParseUrl/RoundTrip.antt =====
-- parse_URL reads back a URL that is written from its parts.
use epics_logfile.Base.{
  ℕ, ◌+◌, ◌-◌, ◌*◌, ◌≤◌, ◌<◌, ◌≡◌, ◌≢◌, refl, sym, ap, ◌∙◌, true, false, ◌||◌, [], ◌∷◌, ◌++◌,
  append_assoc, none, some, arith, Bytes, codes, length, length-append, All, Lacks, Lacks-append,
  find_text, find_byte_at, substr, substr_at, substr_from_at, ok, ltb, ◌==◌, find_text,
}
use epics_logfile.Base.Decimal.{
  digit_shape, decimal, is_digit, digits_value, digits_value-decimal, decimal_digits,
  length-decimal_le_five,
}
use epics_logfile.ParseUrl.{
  UrlInfo, decode_hex_byte, protocol_part, login_between, leading_digits, login_part, path_part,
  host_part, set_port, atoi, has_bad_char, check_host, parse_parts, parse_url,
}
use epics_logfile.ParseUrl.Encode.{encode, decode_hex_byte-encode, encode-Lacks}

find_protocol :
    (p rest : Bytes)
    → Lacks b':' p
    → find_text (codes "://") (p ++ (codes "://" ++ rest)) ≡ some (length p)
unfolding find_text
find_protocol [] rest h = refl
find_protocol (c ∷ p) rest h = ground (arith, find_protocol p rest)

protocol_stage :
    (p rest : Bytes) (ret : UrlInfo)
    → Lacks b':' p
    → protocol_part (p ++ (codes "://" ++ rest)) ret ≡ (record ret { protocol = p }, length p + 3)
unfolding protocol_part
protocol_stage p rest ret h =
    rw (find_protocol p rest h, protocol_part)
      (rw (substr_at _ [] p (codes "://" ++ rest) 0 (length p) refl refl refl))

login_between_ok :
    (url : Bytes) (pe at colon : ℕ) (ret : UrlInfo) (l w login password : Bytes)
    → pe < colon
    → colon ≤ at
    → substr url pe (colon - pe) ≡ l
    → substr url (colon + 1) (at - (colon + 1)) ≡ w
    → decode_hex_byte l ≡ ok login
    → decode_hex_byte w ≡ ok password
    → login_between url pe at colon ret
      ≡ ok (record ret { login = login; password = password }, at + 1)
unfolding login_between
login_between_ok url pe at colon ret l w login password lt le sl sw dl dw =
    let first : (colon == pe || ltb at colon) ≡ false = ground arith in
    rw (first, sl, sw, dl) (rw dw)

length-pos : (l : Bytes) → l ≢ [] → 0 < length l
length-pos [] ne = absurd (ne refl)
length-pos (x ∷ l) ne = omega arith

login_stage :
    (url pre l w rest login password : Bytes) (pos : ℕ) (ret : UrlInfo)
    → url ≡ pre ++ (l ++ b':' ∷ (w ++ b'@' ∷ rest))
    → pos ≡ length pre
    → Lacks b'@' l
    → Lacks b':' l
    → Lacks b'@' w
    → l ≢ []
    → decode_hex_byte l ≡ ok login
    → decode_hex_byte w ≡ ok password
    → login_part url pos ret
      ≡ ok (
        record ret { login = login; password = password },
        length (pre ++ (l ++ b':' ∷ (w ++ b'@' ∷ []))),
      )
unfolding login_part
login_stage url pre l w rest login password pos ret eu ep la lc wa ne dl dw =
    let found_at =
      find_byte_at b'@' url pre (l ++ b':' ∷ w) rest pos
        (eu ∙ ap (λ x. pre ++ x) (sym (append_assoc l (b':' ∷ w) _))) ep
        (Lacks-append b'@' l (b':' ∷ w) la wa) in
    let found_colon = find_byte_at b':' url pre l (w ++ b'@' ∷ rest) pos eu ep lc in
    rw (found_at, login_part)
      (rw found_colon (
        login_between_ok url pos _ _ ret l w login password (omega (arith, length-pos l ne))
          (omega (arith, length-append {0} l (b':' ∷ w)))
          (substr_at url pre l (b':' ∷ (w ++ b'@' ∷ rest)) pos _ eu ep (omega arith))
          (substr_at url (pre ++ (l ++ b':' ∷ [])) w (b'@' ∷ rest) _ _ (eu ∙ simp append_assoc)
            (omega (arith, length-append {0} pre (l ++ b':' ∷ []), length-append {0} l (b':' ∷ [])))
            (omega (arith, length-append {0} l (b':' ∷ w))))
          dl dw
        ∙ ap (λ (n : ℕ). ok (record ret { login = login; password = password }, n))
            (omega (
              arith,
              length-append {0} pre (l ++ b':' ∷ (w ++ b'@' ∷ [])),
              length-append {0} l (b':' ∷ (w ++ b'@' ∷ [])),
              length-append {0} w (b'@' ∷ []),
              length-append {0} l (b':' ∷ w),
            ))))

path_stage :
    (url pre s path_text path : Bytes) (pos : ℕ) (ret : UrlInfo)
    → url ≡ pre ++ (s ++ b'/' ∷ path_text)
    → pos ≡ length pre
    → Lacks b'/' s
    → decode_hex_byte path_text ≡ ok path
    → path_part url pos ret ≡ ok (record ret { path = path }, pos + length s)
unfolding path_part
path_stage url pre s path_text path pos ret eu ep l d =
    let found = find_byte_at b'/' url pre s path_text pos eu ep l in
    let cut =
      substr_from_at url (pre ++ (s ++ b'/' ∷ [])) path_text (pos + length s + 1)
        (eu ∙ simp append_assoc)
        (omega (arith, length-append {0} pre (s ++ b'/' ∷ []), length-append {0} s (b'/' ∷ []))) in
    rw (found, path_part) (rw (cut, d))

has_bad_char_digits : (s : Bytes) → All (λ c. is_digit c ≡ true) s → has_bad_char s ≡ false
unfolding has_bad_char
has_bad_char_digits [] h = refl
has_bad_char_digits (c ∷ s) h = rw h.0 (has_bad_char_digits s h.1)

digits-Lacks : (c : ℕ) (s : Bytes) → is_digit c ≡ false → All (λ x. is_digit x ≡ true) s → Lacks c s
digits-Lacks c [] h a = refl
digits-Lacks c (x ∷ s) h a = ground (arith, digits-Lacks c s h a.1)

leading_digits-All :
    (acc : ℕ) (s : Bytes)
    → All (λ c. is_digit c ≡ true) s
    → leading_digits acc s ≡ digits_value acc s
unfolding leading_digits digits_value
leading_digits-All acc [] h = refl
leading_digits-All acc (c ∷ s) h = rw h.0 (leading_digits-All (acc * 10 + (c - b'0')) s h.1)

atoi_digits : (s : Bytes) → All (λ c. is_digit c ≡ true) s → atoi s ≡ digits_value 0 s
unfolding atoi
atoi_digits [] h = unfold digits_value in refl
atoi_digits (c ∷ s) h =
    let shape = digit_shape c h.0 in rw (shape.0, shape.1, shape.2) (leading_digits-All 0 (c ∷ s) h)

port_stage :
    (port : ℕ) (ret : UrlInfo)
    → 1 ≤ port
    → port ≤ 65535
    → set_port (decimal port) ret ≡ ok (record ret { port = port })
unfolding set_port
port_stage port ret lo hi =
    let value = atoi_digits (decimal port) (decimal_digits port) ∙ digits_value-decimal port in
    let good = has_bad_char_digits (decimal port) (decimal_digits port) in
    ground (arith, value, good, length-decimal_le_five port)

host_stage :
    (url pre host rest : Bytes) (port pos slash : ℕ) (ret : UrlInfo)
    → url ≡ pre ++ (host ++ b':' ∷ (decimal port ++ b'/' ∷ rest))
    → pos ≡ length pre
    → slash ≡ pos + length (host ++ b':' ∷ decimal port)
    → Lacks b':' host
    → 1 ≤ port
    → port ≤ 65535
    → host_part url pos slash ret ≡ ok (record ret { host = host; port = port })
unfolding host_part
host_stage url pre host rest port pos slash ret eu ep es l lo hi =
    let found = find_byte_at b':' url pre host (decimal port ++ b'/' ∷ rest) pos eu ep l in
    let len = length-append {0} host (b':' ∷ decimal port) in
    let before : ltb slash (pos + length host) ≡ false = ground arith in
    let cut_host =
      substr_at url pre host (b':' ∷ (decimal port ++ b'/' ∷ rest)) pos (pos + length host - pos) eu
        ep (omega arith) in
    let cut_port =
      substr_at url (pre ++ (host ++ b':' ∷ [])) (decimal port) (b'/' ∷ rest)
        (pos + length host + 1) (slash - (pos + length host + 1)) (eu ∙ simp append_assoc)
        (omega
          (arith, length-append {0} pre (host ++ b':' ∷ []), length-append {0} host (b':' ∷ [])))
        (omega arith) in
    rw (found, host_part)
      (rw (before, cut_port, cut_host) (port_stage port (record ret { host = host }) lo hi))

-- A URL with all its parts, the login, the password and the path percent-encoded.
unfoldable pub render : UrlInfo → Bytes
render p =
    p.protocol
    ++ (codes "://"
        ++ (encode p.login
            ++ b':'
              ∷ (encode p.password
                  ++ b'@' ∷ (p.host ++ b':' ∷ (decimal p.port ++ b'/' ∷ encode p.path)))))

abbrev IsBytes : Bytes → Type 0
IsBytes s = All (λ c. c < 256) s

-- What a rendered URL can carry.
pub record IsRenderable (p : UrlInfo) : Type 0 where
  pub protocol_plain : Lacks b':' p.protocol
  pub login_bytes : IsBytes p.login
  pub login_ne_nil : p.login ≢ []
  pub password_bytes : IsBytes p.password
  pub host_ne_nil : p.host ≢ []
  pub host_no_colon : Lacks b':' p.host
  pub host_no_slash : Lacks b'/' p.host
  pub port_pos : 1 ≤ p.port
  pub port_fits : p.port ≤ 65535
  pub path_bytes : IsBytes p.path

encode-ne-nil : (s : Bytes) → s ≢ [] → encode s ≢ []
unfolding encode
encode-ne-nil [] ne = absurd (ne refl)
encode-ne-nil (c ∷ s) ne = ground arith

check_host_named : (r : UrlInfo) → r.host ≢ [] → check_host r ≡ ok r
unfolding check_host
check_host_named r ne = ground arith

parse_parts-render : (p old : UrlInfo) → IsRenderable p → parse_parts (render p) old ≡ ok p
unfolding parse_parts render
parse_parts-render p old v =
    let url = render p in
    let l = encode p.login in
    let w = encode p.password in
    let a = encode p.path in
    let n = decimal p.port in
    let rest = p.host ++ b':' ∷ (n ++ b'/' ∷ a) in
    let pre = p.protocol ++ codes "://" in
    let pre2 = pre ++ (l ++ b':' ∷ (w ++ b'@' ∷ [])) in
    let step1 = protocol_stage p.protocol (l ++ b':' ∷ (w ++ b'@' ∷ rest)) old v.protocol_plain in
    let step2 =
      login_stage url pre l w rest p.login p.password (length p.protocol + 3)
        (record old { protocol = p.protocol }) (simp append_assoc)
        (omega (arith, length-append {0} p.protocol (codes "://")))
        (encode-Lacks b'@' p.login refl v.login_bytes)
        (encode-Lacks b':' p.login refl v.login_bytes)
        (encode-Lacks b'@' p.password refl v.password_bytes) (encode-ne-nil p.login v.login_ne_nil)
        (decode_hex_byte-encode p.login v.login_bytes)
        (decode_hex_byte-encode p.password v.password_bytes) in
    let step3 =
      path_stage url pre2 (p.host ++ b':' ∷ n) a p.path (length pre2)
        (record old { protocol = p.protocol; login = p.login; password = p.password })
        (simp append_assoc) refl
        (Lacks-append b'/' p.host (b':' ∷ n) v.host_no_slash
          (digits-Lacks b'/' n refl (decimal_digits p.port)))
        (decode_hex_byte-encode p.path v.path_bytes) in
    let step4 =
      host_stage url pre2 p.host a p.port (length pre2) (length pre2 + length (p.host ++ b':' ∷ n))
        (record old {
          protocol = p.protocol;
          login = p.login;
          password = p.password;
          path = p.path;
        })
        (simp append_assoc) refl refl v.host_no_colon v.port_pos v.port_fits in
    rw (step1, parse_parts) (rw (step2, step3, step4) (check_host_named p v.host_ne_nil))

-- parse_URL reads every part back from a rendered URL, whatever the parts were before.
pub parse_url-render : (p old : UrlInfo) → IsRenderable p → parse_url (render p) old ≡ (p, none)
unfolding parse_url
parse_url-render p old v = rw (parse_parts-render p old v, parse_url)
