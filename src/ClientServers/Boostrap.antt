-- ===== src/ClientServers/Boostrap.antt =====
-- What Boostrap makes of the servers in the configuration.
use gocs.Prelude.{
  ap, ◌≡◌, refl, ltb, length, arith, ◌&&◌, Bool, true, false, Option, none, some, List, [], ◌∷◌,
  ◌++◌, Bytes, if◌then◌else◌, All, All-append, map,
}
use gocs.Errors.{Error, Result, ok, err}
use gocs.Ports.{parse_conn_addr}
use gocs.ClientServers.{
  ServerConf, ServerDialer, Group, with_credentials, named, server_dial, inner_dialers, prepend,
  server_dialers, is_usable, add_group, boostrap,
}

-- The servers that count: those that are enabled and have an address.
abbrev pub usable : List ServerConf → List ServerConf
usable [] = []
usable (conf ∷ confs) =
    let rest = usable confs in
    if conf.enable && ltb 0 (length conf.address) then conf ∷ rest else rest

abbrev pub all_of : {A B : Type 0} → (A → List B) → List A → List B
all_of f [] = []
all_of f (a ∷ xs) = f a ++ all_of f xs

-- The first error in the addresses.
abbrev pub first_error : List Bytes → Option Error
first_error [] = none
first_error (a ∷ xs) = elim (parse_conn_addr a).1 [ some e ↦ some e | none ↦ first_error xs ]

-- A dialer for one address and port: under that name, with that address alone, with the name and
-- password of its server, and never used before.
abbrev pub dialer_for : ServerConf → Bytes → ServerDialer
dialer_for conf a = record {
  conf = record {
    enable = true;
    name = a;
    address = a ∷ [];
    username = conf.username;
    password = conf.password;
  };
  last_used = 0;
}

abbrev pub group_for : ServerConf → Group
group_for conf =
    (conf.name, map (dialer_for conf) (all_of (λ a. (parse_conn_addr a).0) conf.address))

abbrev pub unless : {A : Type 0} → Option Error → A → Result A
unless (some e) a = err e
unless none a = ok a

first_error-append :
    (xs ys : List Bytes)
    → first_error (xs ++ ys) ≡ (elim (first_error xs) [ some e ↦ some e | none ↦ first_error ys ])
first_error-append [] ys = refl
first_error-append (x ∷ xs) ys = ground (arith, first_error-append xs ys)

inner_dialers-map :
    (conf : ServerConf) (xs : List Bytes) (ys : List ServerDialer)
    → inner_dialers conf xs ++ ys ≡ map (dialer_for conf) xs ++ ys
inner_dialers-map conf [] ys = refl
inner_dialers-map conf (x ∷ xs) ys = ap (λ l. dialer_for conf x ∷ l) (inner_dialers-map conf xs ys)

map-append :
    (conf : ServerConf) (xs ys : List Bytes)
    → map (dialer_for conf) (xs ++ ys) ≡ map (dialer_for conf) xs ++ map (dialer_for conf) ys
map-append conf [] ys = refl
map-append conf (x ∷ xs) ys = ap (λ l. dialer_for conf x ∷ l) (map-append conf xs ys)

server_dialers_lem :
    (conf : ServerConf) (addrs : List Bytes)
    → server_dialers conf addrs
      ≡ unless
          (first_error addrs)
          (map (dialer_for conf) (all_of (λ a. (parse_conn_addr a).0) addrs))
unfolding server_dialers
server_dialers_lem conf [] = refl
server_dialers_lem conf (a ∷ addrs) =
    let found = (parse_conn_addr a).0 in
    let others = map (dialer_for conf) (all_of (λ a. (parse_conn_addr a).0) addrs) in
    ground (
      arith,
      server_dialers_lem conf addrs,
      inner_dialers-map conf found others,
      map-append conf found (all_of (λ a. (parse_conn_addr a).0) addrs),
    )

-- Boostrap makes one group for each server that is enabled and has an address, in order and under
-- its name, with one dialer for every address and port of it, which has that address alone, the name
-- and password of its server, and its first address to take. It fails exactly if one of those
-- addresses does not parse, with the error of the first.
pub boostrap-wanted :
    (confs : List ServerConf)
    → boostrap confs
      ≡ unless
          (first_error (all_of (λ (conf : ServerConf). conf.address) (usable confs)))
          (map group_for (usable confs))
unfolding boostrap
boostrap-wanted [] = refl
boostrap-wanted (conf ∷ confs) = ground (
  arith,
  boostrap-wanted confs,
  server_dialers_lem conf conf.address,
  first_error-append conf.address (all_of (λ (conf : ServerConf). conf.address) (usable confs)),
)

module _ {R : Type 0} (base : Bytes → Result R) where
  -- A dial asks the base for the one address of the dialer, and leaves the dialer as it is.
  abbrev pub IsSteady : ServerDialer → Type 0
  IsSteady d =
      server_dial base d
      ≡ some (named base d.conf.name (base (with_credentials d.conf d.conf.name)), d)

  inner_dialers-IsSteady :
      (conf : ServerConf) (xs : List Bytes) → All IsSteady (inner_dialers conf xs)
  unfolding server_dial
  inner_dialers-IsSteady conf [] = tt
  inner_dialers-IsSteady conf (a ∷ xs) = (refl, inner_dialers-IsSteady conf xs)

  abbrev AllSteady : Result (List ServerDialer) → Type 0
  AllSteady (err e) = Unit
  AllSteady (ok ds) = All IsSteady ds

  server_dialers-AllSteady :
      (conf : ServerConf) (addrs : List Bytes) → AllSteady (server_dialers conf addrs)
  unfolding server_dialers
  server_dialers-AllSteady conf [] = tt
  server_dialers-AllSteady conf (a ∷ xs) =
      go (parse_conn_addr a).1 (server_dialers conf xs) (server_dialers-AllSteady conf xs)
    where
      go :
          (e : Option Error) (rest : Result (List ServerDialer))
          → AllSteady rest
          → AllSteady (elim e [
            | some x ↦ err x
            | none ↦ prepend (inner_dialers conf (parse_conn_addr a).0) rest
          ])
      go (some x) rest h = tt
      go none (err e) h = tt
      go none (ok ds) h =
          All-append IsSteady (inner_dialers conf (parse_conn_addr a).0) ds
            (inner_dialers-IsSteady conf (parse_conn_addr a).0) h

  abbrev pub GroupsSteady : Result (List Group) → Type 0
  GroupsSteady (err e) = Unit
  GroupsSteady (ok gs) = All (λ (g : Group). All IsSteady g.1) gs

  -- Every dialer that Boostrap makes is of one address, which is its name: it never panics, asks
  -- the dialer below for that address with the credentials of its server, and is the same after a
  -- dial, so that this holds of every dial.
  pub boostrap-GroupsSteady : (confs : List ServerConf) → GroupsSteady (boostrap confs)
  unfolding boostrap
  boostrap-GroupsSteady [] = tt
  boostrap-GroupsSteady (conf ∷ confs) =
      go (is_usable conf) (server_dialers conf conf.address)
        (server_dialers-AllSteady conf conf.address) (boostrap confs) (boostrap-GroupsSteady confs)
    where
      go :
          (b : Bool) (r : Result (List ServerDialer))
          → AllSteady r
          → (rest : Result (List Group)) → GroupsSteady rest
          → GroupsSteady (if b then add_group conf.name r rest else rest)
      go false r s rest h = h
      go true (err e) s rest h = tt
      go true (ok ds) s (err e) h = tt
      go true (ok ds) s (ok gs) h = (s, h)
