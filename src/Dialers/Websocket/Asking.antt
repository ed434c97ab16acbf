-- ===== src/Dialers/Websocket/Asking.antt =====
-- What a WebsocketDialer asks for, from what the URL says.
use gocs.Prelude.{
  ◌≡◌, ◌≢◌, ◌⊎◌, ◌↔◌, Bool, true, false, Option, none, some, [], ◌∷◌, ◌++◌, Bytes, codes, bytes_eq,
}
use gocs.Dialers.Websocket.{Target, WsEnv, Config}
use gocs.Dialers.Websocket.Authority.{IsPlain}

abbrev pub scheme_for : Bool → Bytes
scheme_for true = codes "wss"
scheme_for false = codes "ws"

abbrev pub standard_port : Bool → Bytes
standard_port true = codes "443"
standard_port false = codes "80"

abbrev pub origin_for : Bool → Bytes → Bytes
origin_for true host = codes "https://" ++ host
origin_for false host = codes "http://" ++ host

-- The host of a URL, with or without a port, and the address that it stands for.
abbrev pub url_host : Bytes → Option Bytes → Bytes
url_host name none = name
url_host name (some port) = name ++ b':' ∷ port

abbrev pub url_address : Bool → Bytes → Option Bytes → Bytes
url_address secure name none = name ++ b':' ∷ standard_port secure
url_address secure name (some port) = name ++ b':' ∷ port

abbrev pub IsPlainPort : Option Bytes → Type 0
IsPlainPort none = Unit
IsPlainPort (some port) = IsPlain port

-- The configuration of the websocket of a URL: its origin is the host under http or https; it has
-- basic authentication exactly if the URL has a name and a password; and it does not verify the
-- certificate exactly if the URL says skip_verify=1.
pub record IsAsked (env : WsEnv) (t : Target) (secure : Bool) (c : Config) : Type 0 where
  pub location : c.location ≡ t
  pub origin : c.origin ≡ origin_for secure t.host
  pub skips : (c.insecure ≡ true) ↔ (t.skip_verify ≡ codes "1")
  pub authorization :
      (((t.username ≡ []) ⊎ (t.password ≡ [])) × (c.authorization ≡ none))
      ⊎ ((t.username ≢ [])
          × (t.password ≢ [])
          × (c.authorization
              ≡ some (codes "Basic " ++ env.encode (t.username ++ b':' ∷ t.password))))
