-- ===== src/Dialers/Websocket.antt =====
-- WebsocketDialer of core/dialer.go. The URL's parser, the raw dialer, the two libraries behind it
-- and base64 are parameters; of a dial, what was asked of them and whether the raw connection is
-- still open is recorded.
pub mod Authority
pub mod Closing
pub mod Asking
use gocs.Prelude.{
  ℕ, suc, ◌+◌, ◌*◌, ◌-◌, ◌^◌, Bool, true, false, not, ◌&&◌, ◌||◌, Option, none, some, List, [], ◌∷◌,
  ◌++◌, Bytes, codes, bytes_eq, ◌==◌, eqb, leb, ltb, if◌then◌else◌,
}
use gocs.Errors.{Error, errorf, Result, ok, err}

-- A URL as WebsocketDialer reads it: the values of its query are empty where they are not given.
pub record Target : Type 0 where
  pub scheme : Bytes
  pub host : Bytes
  pub text : Bytes
  pub username : Bytes
  pub password : Bytes
  pub skip_verify : Bytes
  pub timeout : Bytes

-- What websocket.Config holds behind Dial.
pub record Config : Type 0 where
  pub location : Target
  pub origin : Bytes
  pub authorization : Option Bytes
  pub insecure : Bool

abbrev pub holds_byte : ℕ → Bytes → Bool
holds_byte c [] = false
holds_byte c (b ∷ s) = eqb b c || holds_byte c s

abbrev pub is_empty : Bytes → Bool
is_empty [] = true
is_empty (b ∷ s) = false

-- What follows the first byte c, if there is one.
unfoldable pub after_byte : ℕ → Bytes → Option Bytes
after_byte c [] = none
after_byte c (b ∷ s) = let rest = after_byte c s in if eqb b c then some s else rest

-- `:port`, with no bracket and no other colon in the port.
abbrev pub is_port : Bytes → Bool
is_port [] = false
is_port (b ∷ s) = eqb b b':' && not (holds_byte b':' s || (holds_byte b'[' s || holds_byte b']' s))

abbrev has_port : Option Bytes → Bool
has_port none = false
has_port (some s) = is_port s

-- The port of a host without brackets: one colon.
unfoldable pub plain_port : Bytes → Bool
plain_port [] = false
plain_port (b ∷ s) =
    let rest = plain_port s in
    if eqb b b':'
    then not (holds_byte b':' s || (holds_byte b'[' s || holds_byte b']' s))
    else if eqb b b'[' || eqb b b']'
    then false
    else rest

-- Whether net.SplitHostPort returns no error.
unfoldable pub splits : Bytes → Bool
unfolding after_byte plain_port
splits [] = false
splits (b ∷ s) =
    if eqb b b'['
    then not (holds_byte b'[' s) && has_port (after_byte b']' s)
    else plain_port (b ∷ s)

-- net.JoinHostPort
abbrev pub join_host_port : Bytes → Bytes → Bytes
join_host_port host port =
    if holds_byte b':' host
    then codes "[" ++ (host ++ (codes "]:" ++ port))
    else host ++ (codes ":" ++ port)

-- portMap
unfoldable pub port_map : Bytes → Option Bytes
port_map scheme =
    if scheme == codes "ws"
    then some (codes "80")
    else if scheme == codes "wss"
    then some (codes "443")
    else none

-- parseAuthority
unfoldable pub parse_authority : Bytes → Bytes → Bytes
unfolding port_map splits
parse_authority scheme host = elim (port_map scheme) [
  | none ↦ host
  | some port ↦ if splits host then host else join_host_port host port
]

-- strconv.ParseUint(s, 10, 32) behind its first n, the error left out.
unfoldable pub uint_from : ℕ → Bytes → ℕ
uint_from n [] = n
uint_from n (c ∷ s) =
    let m = n * 10 + (c - b'0') in
    let rest = uint_from m s in
    if leb b'0' c && leb c b'9' then (if ltb (2 ^ 32 - 1) m then 2 ^ 32 - 1 else rest) else 0

unfoldable pub timeout_seconds : Bytes → ℕ
unfolding uint_from
timeout_seconds text = if ltb (uint_from 0 text) 1 then 5 else uint_from 0 text

abbrev pub origin_of : Target → Bytes
origin_of t =
    if t.scheme == codes "wss" then codes "https://" ++ t.host else codes "http://" ++ t.host

-- What a handshake comes to: an answer, or none within the timeout.
abbrev pub Handshake : Type 0
Handshake = Option (Option Error)

pub record WsEnv : Type 0 where
  pub parse : Bytes → Result Target
  -- websocket.NewConfig for a location and an origin.
  pub new_config : Bytes → Bytes → Option Error
  pub encode : Bytes → Bytes
  pub raw_dial : Bytes → Option Error
  pub handshake : Config → ℕ → Handshake
  pub new_client : Config → Option Error

-- How a dial ended: its error, the address that was dialled, whether the handshake of TLS was asked
-- for, the configuration of the websocket, and whether the raw connection is open.
pub record Dialed : Type 0 where
  pub error : Option Error
  pub address : Option Bytes
  pub encrypted : Bool
  pub config : Option Config
  pub raw_open : Bool

abbrev failed : Error → Dialed
failed e = record {
  error = some e;
  address = none;
  encrypted = false;
  config = none;
  raw_open = false;
}

-- tlsHandshake: what comes first on the channel, an answer or the timeout.
abbrev pub tls_handshake : Handshake → Option Error
tls_handshake none = some (errorf (codes "timeout"))
tls_handshake (some answer) = answer

-- dial behind the raw connection and the handshake; a failure closes the raw connection.
abbrev pub upgrade : WsEnv → Config → Dialed → Option Error → Dialed
upgrade env config d (some e) = record d { error = some e; raw_open = false }
upgrade env config d none = elim (env.new_client config) [
  | some e ↦ record d { error = some e; config = some config; raw_open = false }
  | none ↦ record d { error = none; config = some config }
]

abbrev pub connected : WsEnv → Config → ℕ → Bytes → Option Error → Dialed
connected env config timeout address (some e) = record (failed e) { address = some address }
connected env config timeout address none =
    let d : Dialed = record {
      error = none;
      address = some address;
      encrypted = config.location.scheme == codes "wss";
      config = none;
      raw_open = true;
    } in
    upgrade env config d (
      if config.location.scheme == codes "wss"
      then tls_handshake (env.handshake config timeout)
      else none)

-- dial
unfoldable pub ws_dial : WsEnv → Config → ℕ → Dialed
unfolding parse_authority
ws_dial env config timeout =
    let address = parse_authority config.location.scheme config.location.host in
    connected env config timeout address (env.raw_dial address)

-- basicAuth
abbrev pub basic_auth : (Bytes → Bytes) → Bytes → Bytes → Bytes
basic_auth encode username password = encode (username ++ (codes ":" ++ password))

abbrev pub authorization_of : (Bytes → Bytes) → Target → Option Bytes
authorization_of encode t =
    if is_empty t.username || is_empty t.password
    then none
    else some (codes "Basic " ++ basic_auth encode t.username t.password)

abbrev pub config_of : WsEnv → Target → Config
config_of env t = record {
  location = t;
  origin = origin_of t;
  authorization = authorization_of env.encode t;
  insecure = t.skip_verify == codes "1";
}

abbrev pub configured : WsEnv → Target → Option Error → Dialed
configured env t (some e) = failed e
configured env t none = ws_dial env (config_of env t) (timeout_seconds t.timeout)

abbrev pub parsed : WsEnv → Result Target → Dialed
parsed env (err e) = failed e
parsed env (ok t) = configured env t (env.new_config t.text (origin_of t))

-- WebsocketDialer.Dial
unfoldable pub dial : WsEnv → Bytes → Dialed
unfolding ws_dial timeout_seconds
dial env remote = parsed env (env.parse remote)
