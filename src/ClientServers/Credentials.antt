-- ===== src/ClientServers/Credentials.antt =====
-- The credentials of a server in the client's configuration, on their way through the address that
-- ClientServerDialer makes, the header that WebsocketDialer sets, and the guard of wsHandler.
use gocs.Prelude.{
  ℕ, Bool, All, leb, ◌&&◌, ◌||◌, ◌∷◌, if◌then◌else◌, ◌≡◌, refl, ◌≢◌, ◌↔◌, ◌∙◌, ap, ap₂, sym, subst,
  inl, inr, true, false, Option, none, some, [], ◌++◌, Bytes, codes, bytes_eq, arith, get_elem?,
}
use gocs.Prelude.Dict.{lookup}
use gocs.Errors.{Error, Result, ok, err, Result-cases}
use gocs.GoText.{contains}
use gocs.Auth.{Auth, Request, admits}
use gocs.Auth.Access.{IsDigest, admits_iff}
use gocs.Dialers.Websocket.{
  Target, WsEnv, Dialed, holds_byte, basic_auth, authorization_of, config_of, dial,
}
use gocs.Dialers.Websocket.Closing.{EndsOf, dial-EndsOf}
use gocs.ClientServers.{is_empty, ServerConf, ServerDialer, with_credentials, server_dial}

-- WebsocketDialer as the Base of a ClientServerDialer.
abbrev pub base_of : WsEnv → Bytes → Result Dialed
base_of env remote = elim (dial env remote).error [ none ↦ ok (dial env remote) | some e ↦ err e ]

-- A text of letters and digits.
abbrev pub is_alphanumeric : ℕ → Bool
is_alphanumeric c =
    (leb b'0' c && leb c b'9') || ((leb b'A' c && leb c b'Z') || (leb b'a' c && leb c b'z'))

abbrev pub IsWord : Bytes → Type 0
IsWord = All (λ c. is_alphanumeric c ≡ true)

-- An address that says nothing of credentials, and without the marks of a fragment and of an escape.
abbrev pub IsBare : Bytes → Type 0
IsBare address =
    (holds_byte b'#' address ≡ false)
    × (holds_byte b'%' address ≡ false)
    × (contains address (codes "username") ≡ false)
    × (contains address (codes "password") ≡ false)

-- What the parser of URLs reads from a query: the words that stand for username and password at the
-- end of the query of a bare address, whether they are all of it or follow more.
abbrev pub IsQuery : (Bytes → Result Target) → Type 0
IsQuery parse =
    (address name pass : Bytes) (mark : Bytes) (t : Target)
    → IsBare address
    → IsWord name
    → IsWord pass
    → mark ≡ (if contains address (codes "?") then codes "&" else codes "?")
    → parse (address ++ mark ++ (codes "username=" ++ name ++ codes "&password=" ++ pass)) ≡ ok t
    → (t.username ≡ name) × (t.password ≡ pass)

-- BasicAuth of net/http reads the header of a name without a colon and a password.
abbrev pub IsBasic : (Bytes → Bytes) → (Bytes → Option (Bytes × Bytes)) → Type 0
IsBasic encode decode =
    (name pass : Bytes)
    → holds_byte b':' name ≡ false
    → decode (codes "Basic " ++ basic_auth encode name pass) ≡ some (name, pass)

abbrev pub basic_of : (Bytes → Option (Bytes × Bytes)) → Option Bytes → Option (Bytes × Bytes)
basic_of decode none = none
basic_of decode (some header) = decode header

-- The request that wsHandler gets of a websocket.
abbrev pub request_of : (Bytes → Option (Bytes × Bytes)) → Dialed → Request
request_of decode d = record {
  basic = elim d.config [ none ↦ none | some c ↦ basic_of decode c.authorization ];
  username = [];
  password = [];
}

server_dial-base :
    (env : WsEnv) (d next : ServerDialer) (address name : Bytes) (r : Dialed)
    → get_elem? d.conf.address d.last_used ≡ some address
    → server_dial (base_of env) d ≡ some (ok (name, r), next)
    → (r ≡ dial env (with_credentials d.conf address)) × (r.error ≡ none)
unfolding server_dial
server_dial-base env d next address name r h e = ground arith

dial-config :
    (env : WsEnv) (remote : Bytes) (t : Target)
    → env.parse remote ≡ ok t
    → (dial env remote).error ≡ none
    → (dial env remote).config ≡ some (config_of env t)
dial-config env remote t p e =
    elim (subst (λ x. EndsOf env x (dial env remote)) p (dial-EndsOf env remote)) [
      | inl (a, b, c, d, f) ↦ f
      | inr (x, q, o, z) ↦ absurd (ground arith)
    ]

authorization-given :
    (encode : Bytes → Bytes) (decode : Bytes → Option (Bytes × Bytes)) (t : Target)
    → IsBasic encode decode
    → t.username ≢ []
    → t.password ≢ []
    → holds_byte b':' t.username ≡ false
    → basic_of decode (authorization_of encode t) ≡ some (t.username, t.password)
authorization-given encode decode t basic u p plain =
    ground (arith, basic t.username t.password plain)

plain-IsWord : (s : Bytes) → IsWord s → holds_byte b':' s ≡ false
plain-IsWord [] h = refl
plain-IsWord (c ∷ s) h = ground (arith, plain-IsWord s h.1)

parse-well :
    (env : WsEnv) (remote : Bytes) (x : Error)
    → env.parse remote ≡ err x
    → ¬ ((dial env remote).error ≡ none)
parse-well env remote x p e =
    let ends : EndsOf env (err x) (dial env remote) =
      subst (λ r. EndsOf env r (dial env remote)) p (dial-EndsOf env remote) in
    ground (arith, ends.0)

request-given :
    (env : WsEnv) (decode : Bytes → Option (Bytes × Bytes)) (remote : Bytes) (conf : ServerConf)
    (t : Target) (r : Dialed)
    → IsBasic env.encode decode
    → IsWord conf.username
    → conf.username ≢ []
    → conf.password ≢ []
    → env.parse remote ≡ ok t
    → t.username ≡ conf.username
    → t.password ≡ conf.password
    → r ≡ dial env remote
    → (dial env remote).error ≡ none
    → (request_of decode r).basic ≡ some (conf.username, conf.password)
request-given env decode remote conf t r basic word named secret p us ps same well =
    let config : r.config ≡ some (config_of env t) =
      subst (λ (x : Dialed). x.config ≡ some (config_of env t)) (sym same)
        (dial-config env remote t p well) in
    let given =
      authorization-given env.encode decode t basic (λ h. named (sym us ∙ h))
        (λ h. secret (sym ps ∙ h)) (ap (holds_byte b':') us ∙ plain-IsWord conf.username word) in
    rw config (given ∙ ap₂ (λ x y. some (x, y)) us ps)

admits-given :
    (sha1 : Bytes → Bytes) (a : Auth) (req : Request) (name pass : Bytes)
    → IsDigest sha1
    → req.basic ≡ some (name, pass)
    → (admits sha1 a req ≡ true) ↔ (lookup name a.normal_user ≡ some (sha1 pass))
admits-given sha1 a req name pass digest e =
    let (forth, back) = admits_iff sha1 a req digest in
    (λ h. let (n, p, q, l) = forth h in same n p q l, λ l. back (name, pass, e, l))
  where
    same :
        (n p : Bytes)
        → req.basic ≡ some (n, p)
        → lookup n a.normal_user ≡ some (sha1 p)
        → lookup name a.normal_user ≡ some (sha1 pass)
    same n p q l =
        let names : name ≡ n = ground (arith, e, q) in
        let passes : pass ≡ p = ground (arith, e, q) in
        ap (λ x. lookup x a.normal_user) names ∙ l ∙ ap (λ x. some (sha1 x)) (sym passes)

is_empty-some : (s : Bytes) → s ≢ [] → is_empty s ≡ false
is_empty-some [] h = absurd (h refl)
is_empty-some (c ∷ s) h = refl

with_credentials-mark :
    (conf : ServerConf) (address : Bytes) (more : Bool)
    → conf.username ≢ []
    → conf.password ≢ []
    → contains address (codes "?") ≡ more
    → with_credentials conf address
      ≡ address
        ++ (if more then codes "&" else codes "?")
        ++ (codes "username=" ++ conf.username ++ codes "&password=" ++ conf.password)
with_credentials-mark conf address true nu np e =
    rw (is_empty-some conf.username nu, is_empty-some conf.password np, e) refl
with_credentials-mark conf address false nu np e =
    rw (is_empty-some conf.username nu, is_empty-some conf.password np, e) refl

with_credentials-query :
    (parse : Bytes → Result Target) (conf : ServerConf) (address : Bytes) (t : Target)
    → IsQuery parse
    → IsBare address
    → IsWord conf.username
    → IsWord conf.password
    → conf.username ≢ []
    → conf.password ≢ []
    → parse (with_credentials conf address) ≡ ok t
    → (t.username ≡ conf.username) × (t.password ≡ conf.password)
with_credentials-query parse conf address t query bare u p nu np e =
    let more = contains address (codes "?") in
    query address conf.username conf.password (if more then codes "&" else codes "?") t bare u p
      refl (ap parse (sym (with_credentials-mark conf address more nu np refl)) ∙ e)

-- The credentials of a server in the client's configuration decide whether that server admits the
-- client. Let the configuration have a name and a password of letters and digits and an address that
-- says nothing of credentials itself, let the parser of URLs read the username and the password of a
-- query, let BasicAuth of net/http read a header of basic authentication, and let no digest be empty.
-- Then, where a dial of the ClientServerDialer
-- over a WebsocketDialer returns a connection, the server at its other end admits its request exactly
-- if that name is one of its users, with the digest of that password.
pub server_dial-admitted :
    (env : WsEnv) (decode : Bytes → Option (Bytes × Bytes)) (sha1 : Bytes → Bytes) (a : Auth)
    (d next : ServerDialer) (address name : Bytes) (r : Dialed)
    → IsBasic env.encode decode
    → IsDigest sha1
    → IsQuery env.parse
    → IsBare address
    → IsWord d.conf.username
    → IsWord d.conf.password
    → d.conf.username ≢ []
    → d.conf.password ≢ []
    → get_elem? d.conf.address d.last_used ≡ some address
    → server_dial (base_of env) d ≡ some (ok (name, r), next)
    → (admits sha1 a (request_of decode r) ≡ true)
      ↔ (lookup d.conf.username a.normal_user ≡ some (sha1 d.conf.password))
server_dial-admitted env decode sha1 a d next address name r basic digest query bare u w named
      secret at e =
    let (same, fine) = server_dial-base env d next address name r at e in
    let remote = with_credentials d.conf address in
    let well : (dial env remote).error ≡ none = ap (λ (x : Dialed). x.error) (sym same) ∙ fine in
    elim (Result-cases (env.parse remote)) [
      | inl (x, p) ↦ absurd (parse-well env remote x p well)
      | inr (t, p) ↦
          let (us, ps) =
            with_credentials-query env.parse d.conf address t query bare u w named secret p in
          let sent : (request_of decode r).basic ≡ some (d.conf.username, d.conf.password) =
            request-given env decode remote d.conf t r basic u named secret p us ps same well in
          admits-given sha1 a (request_of decode r) d.conf.username d.conf.password digest sent
    ]
