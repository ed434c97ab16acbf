-- ===== src/Witnesses/Servers.antt =====
-- A concrete client configuration.
use gocs.Prelude.{
  ℕ, ◌≡◌, true, false, some, List, [], ◌∷◌, Bytes, codes, arith, length, get_elem?, map,
}
use gocs.Errors.{Result, ok}
use gocs.ClientServers.{ServerConf, ServerDialer, with_credentials, named, server_dial, boostrap}
use gocs.ClientServers.Boostrap.{
  unless, first_error, all_of, usable, group_for, GroupsSteady, boostrap-wanted,
  boostrap-GroupsSteady,
}
use gocs.ClientServers.Rotation.{after_dials, dials, dials-rotate}

-- A server with two ports, and one that is not enabled.
abbrev conf : ServerConf
conf = record {
  enable = true;
  name = codes "home";
  address = codes "wss://h:5200-5201/cover" ∷ [];
  username = codes "ann";
  password = codes "1";
}

abbrev confs : List ServerConf
confs = conf ∷ record conf { enable = false } ∷ []

abbrev base : Bytes → Result ℕ
base address = ok (length address)

boostrap-wanted_example :
    boostrap confs
    ≡ unless
        (first_error (all_of (λ (conf : ServerConf). conf.address) (usable confs)))
        (map group_for (usable confs))
boostrap-wanted_example = boostrap-wanted confs

boostrap-GroupsSteady_example : GroupsSteady base (boostrap confs)
boostrap-GroupsSteady_example = boostrap-GroupsSteady base confs

-- Two addresses, the second of which is next.
abbrev dialer : ServerDialer
dialer = record {
  conf = record conf { address = codes "wss://a/" ∷ codes "wss://b/" ∷ [] };
  last_used = 1;
}

dials-rotate_example :
    (a : Bytes) × (dials base 3 dialer ≡ some (after_dials dialer 3))
    × (get_elem? dialer.conf.address 0 ≡ some a)
    × (server_dial base (after_dials dialer 3)
        ≡ some (
          named base (codes "home") (base (with_credentials dialer.conf a)),
          after_dials (after_dials dialer 3) 1,
        ))
dials-rotate_example = dials-rotate base 3 dialer (omega arith)
