-- ===== src/ParseUrl/Encode.antt =====
-- Percent encoding, as RFC 3986 has it, against decode_hex_byte.
use epics_logfile.Base.{
  ℕ, ◌+◌, ◌*◌, ◌/◌, ◌%◌, ◌<◌, ◌≡◌, ◌⊎◌, ◌∙◌, ap, refl, Bool, true, false, [], ◌∷◌, ◌||◌, ltb, leb,
  ◌==◌, ◌&&◌, if◌then◌else◌, Bytes, ok, All, Lacks, arith, Bool-cases, inl, inr,
}
use epics_logfile.ParseUrl.{is_hex, hex_value, decode_hex_byte, onto}

-- The unreserved bytes: letters, digits, and "-._~".
abbrev is_unreserved : ℕ → Bool
is_unreserved c =
    (leb b'a' c && leb c b'z')
    || (leb b'A' c && leb c b'Z')
    || (leb b'0' c && leb c b'9')
    || c == b'-'
    || c == b'.'
    || c == b'_'
    || c == b'~'

hex_digit : ℕ → ℕ
hex_digit n = if ltb n 10 then b'0' + n else n + 55

-- Every other byte is written as '%' and two hexadecimal digits.
unfoldable pub encode : Bytes → Bytes
unfolding hex_digit
encode [] = []
encode (c ∷ cs) =
    if is_unreserved c
    then c ∷ encode cs
    else b'%' ∷ hex_digit (c / 16) ∷ hex_digit (c % 16) ∷ encode cs

hex_digit_value : (n : ℕ) → n < 16 → (is_hex (hex_digit n) ≡ true) × (hex_value (hex_digit n) ≡ n)
unfolding is_hex hex_value hex_digit
hex_digit_value n h = ground arith

not_special : (c : ℕ) → is_unreserved c ≡ true → ((c == b'%') ≡ false) × ((c == b'+') ≡ false)
not_special c h = ground arith

-- An unreserved byte is decoded by itself.
decode_plain :
    (c : ℕ) (s : Bytes)
    → is_unreserved c ≡ true
    → decode_hex_byte (c ∷ s) ≡ onto c (decode_hex_byte s)
unfolding decode_hex_byte
decode_plain c [] h = let n = not_special c h in rw (n.0, n.1)
decode_plain c (a ∷ []) h = let n = not_special c h in rw (n.0, n.1)
decode_plain c (a ∷ b ∷ s) h = let n = not_special c h in rw (n.0, n.1)

decode_escape :
    (a b : ℕ) (s : Bytes)
    → is_hex a ≡ true
    → is_hex b ≡ true
    → decode_hex_byte (b'%' ∷ a ∷ b ∷ s) ≡ onto (hex_value a * 16 + hex_value b) (decode_hex_byte s)
unfolding decode_hex_byte
decode_escape a b s ha hb = rw (ha, hb)

-- decode_hex_byte undoes percent encoding, on every text of bytes.
pub decode_hex_byte-encode : (s : Bytes) → All (λ c. c < 256) s → decode_hex_byte (encode s) ≡ ok s
unfolding encode
decode_hex_byte-encode [] h = unfold decode_hex_byte in refl
decode_hex_byte-encode (c ∷ s) h = elim (Bool-cases (is_unreserved c)) [
  | inl plain_byte ↦
      rw plain_byte (decode_plain c (encode s) plain_byte ∙ rw (decode_hex_byte-encode s h.1))
  | inr reserved ↦
      let hi = hex_digit_value (c / 16) (omega arith) in
      let lo = hex_digit_value (c % 16) (omega arith) in
      rw reserved (
        decode_escape (hex_digit (c / 16)) (hex_digit (c % 16)) (encode s) hi.0 lo.0
        ∙ rw (hi.1, lo.1, decode_hex_byte-encode s h.1) (ap (λ n. ok (n ∷ s)) (omega arith)))
]

hex_digit_apart :
    (c n : ℕ) → (c == b'@' || c == b':' || c == b'/') ≡ true → n < 16 → (hex_digit n == c) ≡ false
unfolding hex_digit
hex_digit_apart c n h k = ground arith

abbrev is_separator : ℕ → Bool
is_separator c = c == b'@' || c == b':' || c == b'/'

separator : (c : ℕ) → is_separator c ≡ true → (c ≡ b'@') ⊎ ((c ≡ b':') ⊎ (c ≡ b'/'))
separator c h = ground arith

unreserved_apart : (c x : ℕ) → is_separator c ≡ true → is_unreserved x ≡ true → (x == c) ≡ false
unreserved_apart c x h u = elim (separator c h) [
  | inl e ↦ rw e (ground arith)
  | inr (inl e) ↦ rw e (ground arith)
  | inr (inr e) ↦ rw e (ground arith)
]

percent_apart : (c : ℕ) → is_separator c ≡ true → (b'%' == c) ≡ false
percent_apart c h = ground arith

-- An encoded text has no byte that parse_URL looks for.
pub encode-Lacks :
    (c : ℕ) (s : Bytes) → is_separator c ≡ true → All (λ x. x < 256) s → Lacks c (encode s)
unfolding encode
encode-Lacks c [] h a = refl
encode-Lacks c (x ∷ s) h a = elim (Bool-cases (is_unreserved x)) [
  | inl plain_byte ↦ rw (plain_byte, unreserved_apart c x h plain_byte) (encode-Lacks c s h a.1)
  | inr reserved ↦
      rw
        (
          reserved,
          percent_apart c h,
          hex_digit_apart c (x / 16) h (omega arith),
          hex_digit_apart c (x % 16) h (omega arith),
        )
        (encode-Lacks c s h a.1)
]
