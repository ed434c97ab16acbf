-- ===== src/ClientServers.antt =====
-- The servers of the client program: ClientServerDialer and Boostrap of cs_client.go. The dialer
-- below, `c.Base`, is a parameter; what it returns is named after the server.
pub mod Rotation
pub mod Boostrap
pub mod Credentials
use Prim.Native.Nat.{◌%◌}
use gocs.Prelude.{
  ℕ, ◌+◌, Bool, true, false, not, ◌&&◌, ◌||◌, Option, none, some, List, [], ◌∷◌, ◌++◌, Bytes, codes,
  length, get_elem?, if◌then◌else◌,
}
use gocs.Errors.{Error, Result, ok, err}
use gocs.GoText.{contains}
use gocs.Ports.{parse_conn_addr}

-- ClientServerConf
pub record ServerConf : Type 0 where
  pub enable : Bool
  pub name : Bytes
  pub address : List Bytes
  pub username : Bytes
  pub password : Bytes

-- ClientServerDialer, less its Base.
pub record ServerDialer : Type 0 where
  pub conf : ServerConf
  pub last_used : ℕ

abbrev pub is_empty : Bytes → Bool
is_empty [] = true
is_empty (b ∷ s) = false

abbrev pub credentials : ServerConf → Bytes
credentials conf = codes "username=" ++ conf.username ++ codes "&password=" ++ conf.password

-- An address with the credentials of the server, if it has both.
abbrev pub with_credentials : ServerConf → Bytes → Bytes
with_credentials conf address =
    if is_empty conf.username || is_empty conf.password
    then address
    else if contains address (codes "?")
    then address ++ codes "&" ++ credentials conf
    else address ++ codes "?" ++ credentials conf

module _ {R : Type 0} (base : Bytes → Result R) where
  abbrev pub named : Bytes → Result R → Result (Bytes × R)
  named name (err e) = err e
  named name (ok raw) = ok (name, raw)

  -- Dial; nothing where the index of the address is out of range, which panics.
  unfoldable pub server_dial : ServerDialer → Option (Result (Bytes × R) × ServerDialer)
  server_dial d = elim (get_elem? d.conf.address d.last_used) [
    | none ↦ none
    | some address ↦ some (
      named d.conf.name (base (with_credentials d.conf address)),
      record d { last_used = (d.last_used + 1) % length d.conf.address },
    )
  ]

-- The dialer that Boostrap makes for one address.
abbrev pub inner_dialer : ServerConf → Bytes → ServerDialer
inner_dialer conf a = record {
  conf = record {
    enable = true;
    name = a;
    address = a ∷ [];
    username = conf.username;
    password = conf.password;
  };
  last_used = 0;
}

abbrev inner_dialers : ServerConf → List Bytes → List ServerDialer
inner_dialers conf [] = []
inner_dialers conf (a ∷ xs) = inner_dialer conf a ∷ inner_dialers conf xs

abbrev prepend : {A : Type 0} → List A → Result (List A) → Result (List A)
prepend xs (err e) = err e
prepend xs (ok ys) = ok (xs ++ ys)

-- The loop over the addresses of a server, which returns at the first that does not parse.
pub server_dialers : ServerConf → List Bytes → Result (List ServerDialer)
server_dialers conf [] = ok []
server_dialers conf (addr ∷ addrs) =
    let rest = server_dialers conf addrs in
    let (xs, e) = parse_conn_addr addr in
    elim e [ some x ↦ err x | none ↦ prepend (inner_dialers conf xs) rest ]

-- `conf.Enable && len(conf.Address) > 0`
abbrev pub is_usable : ServerConf → Bool
is_usable conf = conf.enable && (elim conf.address [ [] ↦ false | a ∷ xs ↦ true ])

-- A SortedDialer over the dialers of one server, under the server's name.
abbrev pub Group : Type 0
Group = Bytes × List ServerDialer

abbrev add_group : Bytes → Result (List ServerDialer) → Result (List Group) → Result (List Group)
add_group name (err e) rest = err e
add_group name (ok ds) rest = prepend ((name, ds) ∷ []) rest

-- The dialers of Boostrap; where it fails, the client stays as it was.
unfoldable pub boostrap : List ServerConf → Result (List Group)
unfolding server_dialers
boostrap [] = ok []
boostrap (conf ∷ confs) =
    let rest = boostrap confs in
    if is_usable conf then add_group conf.name (server_dialers conf conf.address) rest else rest
