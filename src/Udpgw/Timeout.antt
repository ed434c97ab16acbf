-- ===== src/Udpgw/Timeout.antt =====
-- procTimeout: which connections a sweep drops.
use gocs.Prelude.{ℕ, ◌≡◌, refl, Option, none, some, [], ◌∷◌, if◌then◌else◌, arith, nat_eq, eqb_iff}
use gocs.Prelude.Dict.{Dict, lookup, Distinct}
use gocs.Udpgw.{UdpConn, Udpgw, is_expired, live_conns, time_out}

-- The entry, if it has not expired.
abbrev pub unless_expired : ℕ → ℕ → Option UdpConn → Option UdpConn
unless_expired now timeout none = none
unless_expired now timeout (some c) = if is_expired now timeout c then none else some c

-- In a table with no id twice, a sweep keeps the connections that were used within the timeout, as
-- they are, and no others.
pub lookup-time_out :
    (now timeout k : ℕ) (u : Udpgw)
    → Distinct u.conn_list
    → lookup k (time_out now timeout u).conn_list
      ≡ unless_expired now timeout (lookup k u.conn_list)
unfolding time_out
lookup-time_out now timeout k u d = go u.conn_list d
  where
    go :
        (m : Dict ℕ UdpConn)
        → Distinct m
        → lookup k (live_conns now timeout m) ≡ unless_expired now timeout (lookup k m)
    go [] d = refl
    go ((i, c) ∷ m) d = ground (arith, go m d.1, eqb_iff i k)
