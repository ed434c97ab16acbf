-- ===== src/Dialers/Websocket/Closing.antt =====
-- What a dial of a websocket leaves behind, and what it asked for.
use gocs.Prelude.{
  ℕ, ◌+◌, ◌*◌, ◌-◌, ◌^◌, ◌≤◌, ◌<◌, ◌≡◌, ◌⊎◌, inl, inr, refl, true, false, Option, Bool, none, some,
  [], ◌∷◌, Bytes, codes, bytes_eq, ◌==◌, if◌then◌else◌, arith, ap, ◌∙◌, beq_bytes_iff,
}
use gocs.Errors.{Error, Result, ok, err}
use gocs.Dialers.Websocket.{
  Target, WsEnv, Config, Handshake, Dialed, parse_authority, uint_from, timeout_seconds, origin_of,
  tls_handshake, upgrade, connected, ws_dial, config_of, configured, parsed, dial,
}

uint_from-le : (n : ℕ) (s : Bytes) → n < 2 ^ 32 → uint_from n s < 2 ^ 32
unfolding uint_from
uint_from-le n [] h = h
uint_from-le n (c ∷ s) h = ground (arith, uint_from-le (n * 10 + (c - b'0')) s)

-- Whatever the text of the timeout, it is at least a second, and as a time.Duration, in nanoseconds,
-- it does not overflow.
pub timeout_seconds-fits :
    (text : Bytes) → (1 ≤ timeout_seconds text) × (timeout_seconds text * 1000000000 < 2 ^ 63)
unfolding timeout_seconds
timeout_seconds-fits text = ground (arith, uint_from-le 0 text)

-- What can make a dial fail: the library refuses the URL or the origin, the system the address, or
-- the handshake of TLS, for wss, or the websocket fails, or the handshake does not answer in time.
pub data Cause (env : WsEnv) (c : Config) (address : Bytes) (e : Error) : Type 0 where
  no_url : env.new_config c.location.text c.origin ≡ some e → Cause env c address e
  unreachable : env.raw_dial address ≡ some e → Cause env c address e
  untrusted :
      (seconds : ℕ)
      → c.location.scheme ≡ codes "wss"
      → env.handshake c seconds ≡ some (some e)
      → Cause env c address e
  late :
      (seconds : ℕ)
      → c.location.scheme ≡ codes "wss"
      → env.handshake c seconds ≡ none
      → Cause env c address e
  no_websocket : env.new_client c ≡ some e → Cause env c address e

-- How a dial to a target ended: well, with all that it should have asked for, or with an error and
-- nothing open.
abbrev pub EndsFor : WsEnv → Target → Dialed → Type 0
EndsFor env t d =
    ((d.error ≡ none)
      × (d.raw_open ≡ true)
      × (d.address ≡ some (parse_authority t.scheme t.host))
      × (d.encrypted ≡ (t.scheme == codes "wss"))
      × (d.config ≡ some (config_of env t)))
    ⊎ ((e : Error) × (d.error ≡ some e)
        × (d.raw_open ≡ false)
        × Cause env (config_of env t) (parse_authority t.scheme t.host) e)

abbrev pub EndsOf : WsEnv → Result Target → Dialed → Type 0
EndsOf env (err e) d = (d.error ≡ some e) × (d.raw_open ≡ false)
EndsOf env (ok t) d = EndsFor env t d

module _ (env : WsEnv) (t : Target) where
  abbrev reached : Dialed
  reached = record {
    error = none;
    address = some (parse_authority t.scheme t.host);
    encrypted = t.scheme == codes "wss";
    config = none;
    raw_open = true;
  }

  abbrev IsCause : Error → Type 0
  IsCause = Cause env (config_of env t) (parse_authority t.scheme t.host)

  upgrade-EndsFor :
      (x : Option Error)
      → ((e : Error) → x ≡ some e → IsCause e)
      → EndsFor env t (upgrade env (config_of env t) reached x)
  upgrade-EndsFor (some e) h = inr (e, refl, refl, h e refl)
  upgrade-EndsFor none h = go (env.new_client (config_of env t)) refl
    where
      go :
          (x : Option Error)
          → env.new_client (config_of env t) ≡ x
          → EndsFor env t (elim x [
            | some e ↦ record reached {
              error = some e;
              config = some (config_of env t);
              raw_open = false;
            }
            | none ↦ record reached { error = none; config = some (config_of env t) }
          ])
      go (some e) q = inr (e, refl, refl, no_websocket q)
      go none q = inl (refl, refl, refl, refl, refl)

  tls-IsCause :
      (n : ℕ) (e : Error) (x : Handshake)
      → t.scheme ≡ codes "wss"
      → env.handshake (config_of env t) n ≡ x
      → tls_handshake x ≡ some e
      → IsCause e
  tls-IsCause n e none secure q h = late n secure q
  tls-IsCause n e (some answer) secure q h = untrusted n secure (q ∙ ap some h)

  secured-IsCause :
      (n : ℕ) (b : Bool) (e : Error)
      → (t.scheme == codes "wss") ≡ b
      → (if b then tls_handshake (env.handshake (config_of env t) n) else none) ≡ some e
      → IsCause e
  secured-IsCause n true e secure h =
      tls-IsCause n e (env.handshake (config_of env t) n)
        (ground (arith, secure, beq_bytes_iff t.scheme (codes "wss"))) refl h
  secured-IsCause n false e plain h = absurd (ground arith)

  connected-EndsFor :
      (n : ℕ) (x : Option Error)
      → env.raw_dial (parse_authority t.scheme t.host) ≡ x
      → EndsFor env t (connected env (config_of env t) n (parse_authority t.scheme t.host) x)
  connected-EndsFor n (some e) q = inr (e, refl, refl, unreachable q)
  connected-EndsFor n none q =
      upgrade-EndsFor
        (if t.scheme == codes "wss"
          then tls_handshake (env.handshake (config_of env t) n)
          else none)
        (λ e. secured-IsCause n (t.scheme == codes "wss") e refl)

  configured-EndsFor :
      (x : Option Error)
      → env.new_config t.text (origin_of t) ≡ x
      → EndsFor env t (configured env t x)
  unfolding ws_dial
  configured-EndsFor (some e) q = inr (e, refl, refl, no_url q)
  configured-EndsFor none q =
      connected-EndsFor (timeout_seconds t.timeout) (env.raw_dial (parse_authority t.scheme t.host))
        refl

parsed-EndsOf : (env : WsEnv) (r : Result Target) → EndsOf env r (parsed env r)
parsed-EndsOf env (err e) = (refl, refl)
parsed-EndsOf env (ok t) = configured-EndsFor env t (env.new_config t.text (origin_of t)) refl

-- A dial whose URL does not parse ends with that error. Any other ends in one of two ways: without
-- an error, and then the raw connection is open and was dialled to the authority of the URL, TLS was
-- asked for exactly for the scheme wss, and the websocket was opened with the origin, credentials
-- and verification of the URL; or with the error of what was refused or failed. With an error no connection is left open.
pub dial-EndsOf : (env : WsEnv) (remote : Bytes) → EndsOf env (env.parse remote) (dial env remote)
unfolding dial
dial-EndsOf env remote = parsed-EndsOf env (env.parse remote)
