-- ===== src/Witnesses/Websockets.antt =====
-- Dials of a WebsocketDialer.
use mathlib.Core.List.{append_assoc, append-nil}
use gocs.Prelude.{
  ℕ, ap, ◌∙◌, sym, ◌≡◌, ◌↔◌, refl, true, Option, none, some, [], ◌∷◌, ◌++◌, Bytes, bytes_eq, codes,
  arith, eqb, drop, if◌then◌else◌,
}
use gocs.Prelude.Dict.{lookup}
use gocs.GoText.{contains}
use gocs.Auth.{admits}
use gocs.ClientServers.{ServerConf, ServerDialer, server_dial}
use gocs.ClientServers.Credentials.{
  base_of, IsWord, IsQuery, IsBasic, request_of, server_dial-admitted,
}
use gocs.Witnesses.Users.{digest, digest-IsDigest, auth}
use gocs.Errors.{Result, ok}
use gocs.Dialers.Websocket.{
  Target, WsEnv, port_map, parse_authority, timeout_seconds, uint_from, Dialed, dial,
}
use gocs.Dialers.Websocket.Authority.{IsPlain, parse_authority-ports, parse_authority-brackets}

plain_host : IsPlain (codes "web")
plain_host = ground arith

plain_port : IsPlain (codes "80")
plain_port = ground arith

parse_authority-ports_test :
    (parse_authority (codes "wss") (codes "web" ++ b':' ∷ codes "80")
      ≡ codes "web" ++ b':' ∷ codes "80")
    × (parse_authority (codes "wss") (codes "web") ≡ codes "web" ++ b':' ∷ codes "443")
unfolding port_map
parse_authority-ports_test =
    parse_authority-ports (codes "wss") (codes "web") (codes "80") (codes "443") refl plain_host
      plain_port

brackets_test :
    parse_authority (codes "ws") (b'[' ∷ codes "::1" ++ codes "]")
    ≡ codes "[[" ++ (codes "::1" ++ (codes "]]:" ++ codes "80"))
unfolding port_map
brackets_test = parse_authority-brackets (codes "ws") (codes "::1") (codes "80") refl refl refl

timeout_seconds_test :
    (timeout_seconds (codes "12") ≡ 12)
    × (timeout_seconds [] ≡ 5)
    × (timeout_seconds (codes "1x") ≡ 5)
    × (timeout_seconds (codes "99999999999") ≡ 4294967295)
unfolding timeout_seconds uint_from
timeout_seconds_test = (refl, refl, refl, refl)

abbrev target : Target
target = record {
  scheme = codes "wss";
  host = codes "web";
  text = codes "wss://web/cover?username=a&password=b";
  username = codes "a";
  password = codes "b";
  skip_verify = [];
  timeout = [];
}

-- The handshake does not answer in time.
abbrev env : WsEnv
env = record {
  parse = λ remote. ok target;
  new_config = λ location origin. none;
  encode = λ text. text;
  raw_dial = λ address. none;
  handshake = λ config seconds. none;
  new_client = λ config. none;
}

-- A server with its credentials, and a codec that leaves a text as it is.
abbrev conf : ServerConf
conf = record {
  enable = true;
  name = codes "web";
  address = codes "wss://web/cover" ∷ [];
  username = codes "a";
  password = codes "b";
}

abbrev server : ServerDialer
server = record { conf = conf; last_used = 0 }

-- What stands in front of the first colon, and behind it.
abbrev cut : Bytes → Option (Bytes × Bytes)
cut [] = none
cut (c ∷ s) =
    if eqb c b':'
    then some ([], s)
    else elim (cut s) [ none ↦ none | some (name, pass) ↦ some (c ∷ name, pass) ]

abbrev decode : Bytes → Option (Bytes × Bytes)
decode header = cut (drop 6 header)

decode-IsBasic : IsBasic (λ text. text) decode
decode-IsBasic [] pass h = refl
decode-IsBasic (c ∷ name) pass h = ground (arith, decode-IsBasic name pass)

-- A parser that reads the values in front of the last two ends of a query.
abbrev scanned : Bytes × Bytes → ℕ → Bytes × Bytes
scanned (name, pass) c =
    if eqb c b'=' then (name, []) else if eqb c b'&' then (pass, pass) else (name, pass ++ c ∷ [])

abbrev scan : Bytes × Bytes → Bytes → Bytes × Bytes
scan v [] = v
scan v (c ∷ s) = scan (scanned v c) s

abbrev read : Bytes × Bytes → Target
read (name, pass) = record target { username = name; password = pass }

abbrev reader : Bytes → Result Target
reader remote = ok (read (scan ([], []) remote))

scan-append : (v : Bytes × Bytes) (x y : Bytes) → scan v (x ++ y) ≡ scan (scan v x) y
scan-append v [] y = refl
scan-append v (c ∷ x) y = scan-append (scanned v c) x y

scan-IsWord : (name pass w : Bytes) → IsWord w → scan (name, pass) w ≡ (name, pass ++ w)
scan-IsWord name pass [] h = ap (λ x. (name, x)) (sym (append-nil pass))
scan-IsWord name pass (c ∷ w) (h, hs) =
    let next : scanned (name, pass) c ≡ (name, pass ++ c ∷ []) = ground (arith, h) in
    ap (λ v. scan v w) next
    ∙ scan-IsWord name (pass ++ c ∷ []) w hs
    ∙ ap (λ x. (name, x)) (append_assoc pass (c ∷ []) w)

scan-query :
    (a b name pass : Bytes)
    → IsWord name
    → IsWord pass
    → scan (a, b) (codes "username=" ++ name ++ codes "&password=" ++ pass) ≡ (name, pass)
scan-query a b name pass n p =
    scan-append (a, b) (codes "username=" ++ name ++ codes "&password=") pass
    ∙ ap (λ v. scan v pass)
        (scan-append (a, b) (codes "username=" ++ name) (codes "&password=")
          ∙ ap (λ v. scan v (codes "&password=")) (scan-IsWord a [] name n))
    ∙ scan-IsWord name [] pass p

abbrev answering : WsEnv
answering = record env { parse = reader; handshake = λ config seconds. some none }

reader-IsQuery : IsQuery answering.parse
reader-IsQuery address name pass mark t bare n p m e =
    let front = scan ([], []) (address ++ mark) in
    let whole =
      scan-append ([], []) (address ++ mark)
        (codes "username=" ++ name ++ codes "&password=" ++ pass)
      ∙ scan-query front.0 front.1 name pass n p in
    let same : ok (read (name, pass)) ≡ ok t = ap (λ v. ok (read v)) (sym whole) ∙ e in
    (ground (arith, same), ground (arith, same))

abbrev reached : Dialed
reached = dial answering (codes "wss://web/cover?username=a&password=b")

reached_server : server_dial (base_of answering) server ≡ some (ok (codes "web", reached), server)
unfolding server_dial dial contains
reached_server = refl

server_dial-admitted_example :
    (admits digest auth (request_of decode reached) ≡ true)
    ↔ (lookup (codes "a") auth.normal_user ≡ some (digest (codes "b")))
unfolding contains
server_dial-admitted_example =
    server_dial-admitted answering decode digest auth server server (codes "wss://web/cover")
      (codes "web") reached decode-IsBasic digest-IsDigest reader-IsQuery (refl, refl, refl, refl)
      (refl, tt) (refl, tt) (λ e. absurd (ground arith)) (λ e. absurd (ground arith)) refl
      reached_server
