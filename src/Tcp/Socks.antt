-- ===== src/Tcp/Socks.antt =====
-- start_SOCKS: what the two messages say, and when the handshake succeeds.
use epics_logfile.Base.{
  ℕ, ◌+◌, ◌*◌, ◌/◌, ◌%◌, ◌^◌, ◌<◌, ◌≡◌, refl, ap, ◌&&◌, [], ◌∷◌, Option, none, some, Bytes, codes,
  length, take, drop, take-append, drop-append, ◌==◌, if◌then◌else◌, Result, ok, throw,
  runtime_error, arith,
}
use epics_logfile.Base.Map.{find, nat_key}
use epics_logfile.Tcp.{
  System, Socket, and_then, at, hello, check_version, socks_request, socks_error, check_reply,
  check_host, exchange, start_socks,
}

-- What a SOCKS service takes a request for: CONNECT to a name, of the length that stands before it,
-- at a port of two bytes, the higher first.
abbrev read_port : Bytes → Bytes → Option (Bytes × ℕ)
read_port host (high ∷ low ∷ []) = some (host, high * 256 + low)
read_port host _ = none

unfoldable pub read_request : Bytes → Option (Bytes × ℕ)
read_request (version ∷ command ∷ reserved ∷ kind ∷ n ∷ rest) =
    if version == 5 && command == 1 && reserved == 0 && kind == 3
    then read_port (take n rest) (drop n rest)
    else none
read_request _ = none

-- The service reads the host and the port back, if start_SOCKS lets the host's name pass.
pub read_request-socks_request :
    (host : Bytes) (port : ℕ)
    → check_host host ≡ ok tt
    → port < 2 ^ 16
    → read_request (socks_request host port) ≡ some (host, port)
unfolding read_request socks_request check_host
read_request-socks_request host port h p =
    let short : length host % 2 ^ 8 ≡ length host = ground arith in
    let whole : port / 2 ^ 8 % 2 ^ 8 * 256 + port % 2 ^ 8 ≡ port = omega arith in
    rw
      (
        short,
        take-append host (port / 2 ^ 8 % 2 ^ 8 ∷ port % 2 ^ 8 ∷ []),
        drop-append host (port / 2 ^ 8 % 2 ^ 8 ∷ port % 2 ^ 8 ∷ []),
      )
      (ap (λ n. some (host, n)) whole)

-- The service's error is looked up under the wrong byte: a refusal is always reported as the
-- exception "succeeded".
pub check_reply_refused :
    (reply : Bytes)
    → at reply 0 ≡ 5
    → at reply 2 ≡ 0
    → check_reply reply
      ≡ (if at reply 1 == 0 then ok tt else throw (runtime_error (codes "succeeded")))
unfolding check_reply socks_error find
check_reply_refused reply v r = rw (v, r) (ground arith)

check_version_ok : (v : Bytes) → check_version v ≡ ok tt → (at v 0 ≡ 5) × (at v 1 ≡ 0)
unfolding check_version
check_version_ok v h = ground arith

check_reply_ok : (r : Bytes) → check_reply r ≡ ok tt → (at r 0 ≡ 5) × (at r 1 ≡ 0) × (at r 2 ≡ 0)
unfolding check_reply
check_reply_ok r h = ground arith

pub and_then_ok {ℓ} :
    {N : Type 0} {X Y : Type ℓ} (m : Result X × Socket N) (f : X → Socket N → Result Y × Socket N)
    {y : Y}
    → (and_then m f).0 ≡ ok y
    → (x : X) × (s : Socket N) × (m ≡ (ok x, s)) × ((f x s).0 ≡ ok y) × (and_then m f ≡ f x s)
unfolding and_then
and_then_ok (ok x, s) f h = (x, s, refl, h, refl)
and_then_ok (throw e, s) f h = ground arith

and_then_checked :
    {N : Type 0} {Y : Type 0} (c : Result (Unit {0})) (s : Socket N)
    (f : Unit {0} → Socket N → Result Y × Socket N) {y : Y}
    → (and_then (c, s) f).0 ≡ ok y
    → (c ≡ ok tt) × ((f tt s).0 ≡ ok y)
unfolding and_then
and_then_checked (ok u) s f h = (refl, h)
and_then_checked (throw e) s f h = ground arith

module _ {N A : Type 0} (os : System N A) where
  -- If start_SOCKS succeeds, then the service has answered the greeting with version 5 and no
  -- authentication, and the request for the host, whose name is no longer than 255 bytes, and the
  -- port with version 5 and success.
  pub start_socks_ok :
      (s : Socket N)
      → (start_socks os s).0 ≡ ok tt
      → (version : Bytes) × (s₁ : Socket N) × (reply : Bytes) × (s₂ : Socket N) × (exchange os hello
            2 s
          ≡ (ok version, s₁))
        × ((at version 0 ≡ 5) × (at version 1 ≡ 0))
        × (check_host s₁.m_host ≡ ok tt)
        × (exchange os (socks_request s₁.m_host s₁.m_port) 10 s₁ ≡ (ok reply, s₂))
        × ((at reply 0 ≡ 5) × (at reply 1 ≡ 0) × (at reply 2 ≡ 0))
  unfolding start_socks
  start_socks_ok s h =
      let (version, s₁, e₁, h₁, _) = and_then_ok (exchange os hello 2 s) _ h in
      let (checked, h₂) = and_then_checked (check_version version) s₁ _ h₁ in
      let (short, h₃) = and_then_checked (check_host s₁.m_host) s₁ _ h₂ in
      let (reply, s₂, e₂, h₄, _) =
        and_then_ok (exchange os (socks_request s₁.m_host s₁.m_port) 10 s₁) _ h₃ in
      (
        version,
        s₁,
        reply,
        s₂,
        e₁,
        check_version_ok version checked,
        short,
        e₂,
        check_reply_ok reply h₄,
      )
