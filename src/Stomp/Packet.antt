-- ===== src/Stomp/Packet.antt =====
-- connect_thread's and do_write's packets, and the names of the levels in them.
use mathlib.Core.List.{Permᴰ}
use epics_logfile.Base.{
  ℕ, ◌-◌, ◌≡◌, refl, true, ◌&&◌, ◌||◌, List, [], ◌∷◌, ◌++◌, Option, none, some, Bytes, codes,
  is_empty, leb, ◌==◌, if◌then◌else◌, Result, ok, ◌>>=◌, Lacks, Lacks-append, arith, All,
}
use epics_logfile.Base.Decimal.{decimal, is_digit, decimal_digits}
use epics_logfile.Base.Map.{bytes_key}
use epics_logfile.Event.{LogEvent}
use epics_logfile.Level.{Level, level_name, finest, finer, fine, config, info, warning, severe}
use epics_logfile.ParseUrl.{UrlInfo}
use epics_logfile.Stomp.Sanitize.{Entity, replacements, sanitize_string}
use epics_logfile.Stomp.Escape.{escape, escape_byte, sanitize_string-escape}

-- ::toupper and ::isspace in the "C" locale.
upper : ℕ → ℕ
upper c = if leb b'a' c && leb c b'z' then c - 32 else c

upper_text : Bytes → Bytes
unfolding upper
upper_text [] = []
upper_text (c ∷ cs) =
    let rest = upper_text cs in if c == b' ' || (leb 9 c && leb c 13) then rest else upper c ∷ rest

-- m_level_strings.at(l).
level_string : Level → Result Bytes
unfolding upper_text level_name
level_string l = do name ← level_name l; ok (upper_text name)

unfoldable pub connect_packet : UrlInfo → Bytes
connect_packet url =
    (codes "CONNECT\naccept-version:1.1\nheart-beat:0,5000\nhost:"
      ++ url.host
      ++ codes "\n"
      ++ (if is_empty url.login
          then []
          else codes "login:" ++ url.login ++ codes "\npasscode:" ++ url.password ++ codes "\n")
      ++ codes "\n")
    ++ 0 ∷ []

-- m_app_name, m_host and m_user, which the constructor has sanitized, the path of the URL, and the
-- number of the receipt.
pub record Sender : Type 0 where
  pub m_app_name : Bytes
  pub m_host : Bytes
  pub m_user : Bytes
  pub path : Bytes
  pub m_receipt : ℕ

abbrev entry : Bytes → Bytes → Bytes
entry key value =
    codes "<entry><string>"
    ++ key
    ++ codes "</string><string>"
    ++ value
    ++ codes "</string></entry>\n"

-- The body of do_write, with the texts that sanitize_string gives.
send_body : Sender → Bytes → LogEvent → Bytes → Bytes → Bytes → Bytes
send_body o severity e function message subsystem =
    codes "<map>\n"
    ++ entry (codes "APPLICATION-ID") o.m_app_name
    ++ entry (codes "CREATETIME") e.time_string
    ++ entry (codes "HOST") o.m_host
    ++ entry (codes "NAME") function
    ++ entry (codes "SEVERITY") severity
    ++ entry (codes "TEXT") message
    ++ entry (codes "TYPE") (codes "log")
    ++ entry (codes "USER") o.m_user
    ++ entry (codes "CLASS") subsystem
    ++ codes "</map>\n"

send_header : Sender → Bytes
send_header o =
    codes "SEND\ndestination:/topic/"
    ++ o.path
    ++ codes "\ntransformation:jms-map-xml\nreceipt:"
    ++ decimal o.m_receipt
    ++ codes "\n\n"

-- The packet without its last byte, a NUL; `order` is that of sanitize_string's map, and `none`
-- means that one of its loops has not ended.
unfoldable pub send_packet : List Entity → Sender → LogEvent → Result (Option Bytes)
unfolding send_body send_header level_string sanitize_string
send_packet order o e = do
  severity ← level_string e.level
  elim (sanitize_string order e.function) [
    | none ↦ ok none
    | some function ↦ elim (sanitize_string order e.message) [
      | none ↦ ok none
      | some message ↦ elim (sanitize_string order e.subsystem_string) [
        | none ↦ ok none
        | some subsystem ↦
            ok (some (send_header o ++ send_body o severity e function message subsystem))
      ]
    ]
  ]

escape_byte-Lacks : (c : ℕ) → Lacks 0 (escape_byte c)
unfolding escape_byte
escape_byte-Lacks c = ground arith

pub escape-Lacks : (s : Bytes) → Lacks 0 (escape s)
unfolding escape
escape-Lacks [] = refl
escape-Lacks (c ∷ cs) =
    Lacks-append 0 (escape_byte c) (escape cs) (escape_byte-Lacks c) (escape-Lacks cs)

-- Digits are no NUL.
digits-Lacks : (s : Bytes) → All (λ c. is_digit c ≡ true) s → Lacks 0 s
digits-Lacks [] h = refl
digits-Lacks (c ∷ cs) h = ground (arith, h.0, digits-Lacks cs h.1)

-- A text without a NUL.
record IsFree (s : Bytes) : Type 0 where
  lacks : Lacks 0 s

infixl 6 ◌then◌
◌then◌ : {s t : Bytes} → IsFree s → IsFree t → IsFree (s ++ t)
◌then◌ {s} {t} a b = record { lacks = Lacks-append 0 s t a.lacks b.lacks }

free : (s : Bytes) → Lacks 0 s → IsFree s
free s h = record { lacks = h }

header-IsFree : (o : Sender) → Lacks 0 o.path → IsFree (send_header o)
unfolding send_header
header-IsFree o path =
    free (codes "SEND\ndestination:/topic/") refl
    then free o.path path
    then free (codes "\ntransformation:jms-map-xml\nreceipt:") refl
    then free (decimal o.m_receipt)
        (digits-Lacks (decimal o.m_receipt) (decimal_digits o.m_receipt))
    then free (codes "\n\n") refl

entry-IsFree : (key value : Bytes) → Lacks 0 key → Lacks 0 value → IsFree (entry key value)
entry-IsFree key value k v =
    free (codes "<entry><string>") refl
    then free key k
    then free (codes "</string><string>") refl
    then free value v
    then free (codes "</string></entry>\n") refl

-- The constructor's texts, and the event's time, have no NUL.
abbrev IsClean : Sender → LogEvent → Type 0
IsClean o e =
    Lacks 0 o.m_app_name
    × Lacks 0 o.m_host
    × Lacks 0 o.m_user
    × Lacks 0 o.path
    × Lacks 0 e.time_string

body-IsFree :
    (o : Sender) (severity : Bytes) (e : LogEvent) (function message subsystem : Bytes)
    → IsClean o e
    → Lacks 0 severity
    → Lacks 0 function
    → Lacks 0 message
    → Lacks 0 subsystem
    → IsFree (send_body o severity e function message subsystem)
unfolding send_body
body-IsFree o severity e function message subsystem (app, host, user, path, time) sev fun msg sub =
    free (codes "<map>\n") refl
    then entry-IsFree (codes "APPLICATION-ID") o.m_app_name refl app
    then entry-IsFree (codes "CREATETIME") e.time_string refl time
    then entry-IsFree (codes "HOST") o.m_host refl host
    then entry-IsFree (codes "NAME") function refl fun
    then entry-IsFree (codes "SEVERITY") severity refl sev
    then entry-IsFree (codes "TEXT") message refl msg
    then entry-IsFree (codes "TYPE") (codes "log") refl refl
    then entry-IsFree (codes "USER") o.m_user refl user
    then entry-IsFree (codes "CLASS") subsystem refl sub
    then free (codes "</map>\n") refl

-- The levels' names in the packets.
level_string_clean : (l : Level) → (s : Bytes) × (level_string l ≡ ok s) × Lacks 0 s
unfolding level_string upper_text upper level_name
level_string_clean finest = (codes "FINEST", refl, refl)
level_string_clean finer = (codes "FINER", refl, refl)
level_string_clean fine = (codes "FINE", refl, refl)
level_string_clean config = (codes "CONFIG", refl, refl)
level_string_clean info = (codes "INFO", refl, refl)
level_string_clean warning = (codes "WARNING", refl, refl)
level_string_clean severe = (codes "SEVERE", refl, refl)

-- The packet with the escaped texts.
send_packet_made :
    (order : List Entity) (o : Sender) (e : LogEvent) {severity : Bytes}
    → Permᴰ order replacements
    → level_string e.level ≡ ok severity
    → send_packet order o e
      ≡ ok (
          some (
            send_header o
            ++ send_body o severity e
                (escape e.function)
                (escape e.message)
                (escape e.subsystem_string)))
unfolding send_packet
send_packet_made order o e p named =
    let function = sanitize_string-escape order e.function p in
    let message = sanitize_string-escape order e.message p in
    let subsystem = sanitize_string-escape order e.subsystem_string p in
    rw (named, send_packet) (rw (function) (rw (message) (rw (subsystem) refl)))

-- There is always a packet.
pub send_packet_total :
    (order : List Entity) (o : Sender) (e : LogEvent)
    → Permᴰ order replacements
    → (packet : Bytes) × (send_packet order o e ≡ ok (some packet))
send_packet_total order o e p =
    let (severity, named, plain) = level_string_clean e.level in
    (
      send_header o
          ++ send_body o severity e (escape e.function) (escape e.message)
              (escape e.subsystem_string),
      send_packet_made order o e p named,
    )

-- do_write always has a packet to send, whatever order the map in sanitize_string has, and there is
-- no NUL in it but the one that ends the frame, whatever bytes the event's function, message and
-- subsystem are, if the constructor's texts, the URL's path and the event's time have none.
pub send_packet-Lacks :
    (order : List Entity) (o : Sender) (e : LogEvent)
    → Permᴰ order replacements
    → IsClean o e
    → (packet : Bytes) × (send_packet order o e ≡ ok (some packet)) × Lacks 0 packet
send_packet-Lacks order o e p clean =
    let (severity, named, plain) = level_string_clean e.level in
    let body =
      body-IsFree o severity e (escape e.function) (escape e.message) (escape e.subsystem_string)
        clean plain (escape-Lacks e.function) (escape-Lacks e.message)
        (escape-Lacks e.subsystem_string) in
    (
      send_header o
          ++ send_body o severity e (escape e.function) (escape e.message)
              (escape e.subsystem_string),
      send_packet_made order o e p named,
      (header-IsFree o clean.3 then body).lacks,
    )
