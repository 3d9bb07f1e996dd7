-- ===== src/ParseUrl/Bounds.antt =====
-- What holds of the parts after a successful parse.
use epics_logfile.Base.{
  ℕ, ◌≤◌, ◌≡◌, ◌≢◌, ◌⊎◌, inl, inr, refl, sym, subst, ◌∙◌, [], ◌∷◌, arith, Bytes, ok, none, some,
  Result-cases, >>=-eq-ok, Exception, ap,
}
use epics_logfile.ParseUrl.{
  UrlInfo, protocol_part, login_part, path_part, host_part, set_port, check_host, parse_parts,
  parse_url,
}

-- The port is the old one, or a new one that a TCP port can be.
abbrev pub PortFits : ℕ → ℕ → Type 0
PortFits old new = (new ≡ old) ⊎ ((1 ≤ new) × (new ≤ 65535))

set_port-PortFits :
    (port : Bytes) (r ret : UrlInfo) → set_port port r ≡ ok ret → PortFits r.port ret.port
unfolding set_port
set_port-PortFits port r ret e = ground arith

host_part-PortFits :
    (url : Bytes) (host_port slash : ℕ) (r ret : UrlInfo)
    → host_part url host_port slash r ≡ ok ret
    → PortFits r.port ret.port
unfolding host_part
host_part-PortFits url hp slash r ret e = grind (arith, set_port-PortFits)

path_part-port :
    (url : Bytes) (host_port : ℕ) (r : UrlInfo) (x : UrlInfo × ℕ)
    → path_part url host_port r ≡ ok x
    → x.0.port ≡ r.port
unfolding path_part
path_part-port url hp r x e = ground arith

login_part-port :
    (url : Bytes) (proto_end : ℕ) (r : UrlInfo) (x : UrlInfo × ℕ)
    → login_part url proto_end r ≡ ok x
    → x.0.port ≡ r.port
unfolding login_part
login_part-port url pe r x e = ground arith

protocol_part-port : (url : Bytes) (r : UrlInfo) → (protocol_part url r).0.port ≡ r.port
unfolding protocol_part
protocol_part-port url r = ground arith

check_host-host : (r ret : UrlInfo) → check_host r ≡ ok ret → (ret ≡ r) × (ret.host ≢ [])
unfolding check_host
check_host-host r ret e = go r.host refl
  where
    go : (h : Bytes) → r.host ≡ h → (ret ≡ r) × (ret.host ≢ [])
    go [] eh = cc (rw (eh, check_host) at e)
    go (c ∷ cs) eh =
        let same : ret ≡ r = ground (arith, rw (eh, check_host) at e) in
        (same, λ empty. cc (ap (λ x. x.host) same))

parse_parts_ok :
    (url : Bytes) (parts ret : UrlInfo)
    → parse_parts url parts ≡ ok ret
    → (ret.host ≢ []) × PortFits parts.port ret.port
unfolding parse_parts
parse_parts_ok url parts ret e =
    let (with_protocol, proto_end) = protocol_part url parts in
    let (login, l, e1) = >>=-eq-ok (login_part url proto_end with_protocol) _ e in
    let (path, p, e2) = >>=-eq-ok (path_part url login.1 login.0) _ e1 in
    let (host, h, e3) = >>=-eq-ok (host_part url login.1 path.1 path.0) _ e2 in
    let (same, named) = check_host-host host ret e3 in
    let unchanged : path.0.port ≡ parts.port =
      path_part-port url login.1 login.0 path p
      ∙ login_part-port url proto_end with_protocol login l
      ∙ protocol_part-port url parts in
    (
      named,
      subst (λ n. PortFits n ret.port) unchanged
          (subst (λ r. PortFits path.0.port r.port) (sym same)
            (host_part-PortFits url login.1 path.1 path.0 host h)),
    )

-- parse_URL either succeeds, with a host name and with a port that is the one given before or lies
-- in 1..65535, or throws and leaves the caller's parts as they were.
pub parse_url_bounds :
    (url : Bytes) (parts : UrlInfo)
    → (((parse_url url parts).1 ≡ none)
        × ((parse_url url parts).0.host ≢ [])
        × PortFits parts.port (parse_url url parts).0.port)
      ⊎ ((x : Exception) × ((parse_url url parts).1 ≡ some x) × ((parse_url url parts).0 ≡ parts))
unfolding parse_url
parse_url_bounds url parts = elim (Result-cases (parse_parts url parts)) [
  | inl (ret, e) ↦
      rw (e, parse_url) (let (h, p) = parse_parts_ok url parts ret e in inl (refl, h, p))
  | inr (x, e) ↦ rw (e, parse_url) (inr (x, refl, refl))
]
