-- ===== src/Udpgw/Life.antt =====
-- The life of a gateway: packets, sweeps and readers that end, in any order, and the close at the
-- end of PipeConn.
use gocs.Prelude.{
  ℕ, ◌<◌, ◌≤◌, ◌≡◌, refl, true, Option, none, some, [], ◌∷◌, Bytes, arith, length, All, nat_eq,
}
use gocs.Prelude.Dict.{Dict, lookup, Distinct, Distinct-delete, All-delete, length-delete-le}
use gocs.Prelude.Keys.{elem}
use gocs.Udpgw.Header.{Addr}
use gocs.Udpgw.Bounds.{IsBounded, IsKeyed, proc_data-IsBounded}
use gocs.Udpgw.Sockets.{
  IsTracked, proc_data-IsTracked, time_out-IsTracked, close_all-IsTracked, end_read-IsTracked,
}
use gocs.Udpgw.{
  UdpConn, Udpgw, Env, new_udpgw, live_conns, time_out, close_all, end_read, proc_data,
}

-- What can happen to a gateway while PipeConn runs.
pub data Step (u v : Udpgw) : Type 0 where
  arrives : (env : Env) (p : Bytes) → v ≡ (proc_data env u p).1 → Step u v
  sweeps : (now timeout : ℕ) → v ≡ time_out now timeout u → Step u v
  ends :
      (c : UdpConn)
      → ((d : UdpConn) → lookup c.conid u.conn_list ≡ some d → d.raw ≡ c.raw)
      → v ≡ end_read u c
      → Step u v

pub data Reach (u : Udpgw) : Udpgw → Type 0 where
  here : Reach u u
  after : {v w : Udpgw} → Reach u v → Step v w → Reach u w

pub record IsSound (u : Udpgw) : Type 0 where
  pub valid : IsBounded u
  pub tracked : IsTracked u
  pub positive : 0 < u.max_conn

live-lookup :
    (now timeout k : ℕ) (m : Dict ℕ UdpConn)
    → lookup k m ≡ none
    → lookup k (live_conns now timeout m) ≡ none
unfolding live_conns
live-lookup now timeout k [] h = refl
live-lookup now timeout k ((i, c) ∷ m) h = ground (arith, live-lookup now timeout k m)

live-Distinct :
    (now timeout : ℕ) (m : Dict ℕ UdpConn) → Distinct m → Distinct (live_conns now timeout m)
unfolding live_conns
live-Distinct now timeout [] d = tt
live-Distinct now timeout ((i, c) ∷ m) d =
    ground (arith, live-Distinct now timeout m d.1, live-lookup now timeout i m)

live-IsKeyed :
    (now timeout : ℕ) (m : Dict ℕ UdpConn) → All IsKeyed m → All IsKeyed (live_conns now timeout m)
unfolding live_conns
live-IsKeyed now timeout [] d = tt
live-IsKeyed now timeout ((i, c) ∷ m) d = ground (arith, live-IsKeyed now timeout m d.1)

live-length : (now timeout : ℕ) (m : Dict ℕ UdpConn) → length (live_conns now timeout m) ≤ length m
unfolding live_conns
live-length now timeout [] = omega arith
live-length now timeout ((i, c) ∷ m) = ground (arith, live-length now timeout m)

time_out-IsBounded :
    (now timeout : ℕ) (u : Udpgw) → IsBounded u → IsBounded (time_out now timeout u)
unfolding time_out
time_out-IsBounded now timeout u b = record {
  keyed = live-IsKeyed now timeout u.conn_list b.keyed;
  distinct = live-Distinct now timeout u.conn_list b.distinct;
  bounded = omega (arith, live-length now timeout u.conn_list, b.bounded);
}

end_read-IsBounded : (u : Udpgw) (c : UdpConn) → IsBounded u → IsBounded (end_read u c)
unfolding end_read
end_read-IsBounded u c b = record {
  keyed = All-delete IsKeyed c.conid u.conn_list b.keyed;
  distinct = Distinct-delete c.conid u.conn_list b.distinct;
  bounded = omega (arith, length-delete-le c.conid u.conn_list, b.bounded);
}

pub Step-IsSound : {u v : Udpgw} → IsSound u → Step u v → IsSound v
Step-IsSound {u} s (arrives env p e) =
    let k = proc_data-IsBounded env u p s.valid s.positive in
    rw e (record {
      valid = k.valid;
      tracked = proc_data-IsTracked env u p s.valid s.positive s.tracked;
      positive = rw k.same_max s.positive;
    })
Step-IsSound {u} s (sweeps now timeout e) = rw e (record {
  valid = time_out-IsBounded now timeout u s.valid;
  tracked = time_out-IsTracked now timeout u s.tracked;
  positive = unfold time_out in s.positive;
})
Step-IsSound {u} s (ends c own e) = rw e (record {
  valid = end_read-IsBounded u c s.valid;
  tracked = end_read-IsTracked u c s.valid.distinct s.tracked own;
  positive = unfold end_read in s.positive;
})

-- From a table within a positive MaxConn, where each dialled socket is closed or held by the
-- table, packets, sweeps, and readers that end while their id is still theirs lead to such tables
-- only, in any number and order.
pub Reach-IsSound : {u v : Udpgw} → IsSound u → Reach u v → IsSound v
Reach-IsSound s here = s
Reach-IsSound s (after r st) = Step-IsSound (Reach-IsSound s r) st

-- A gateway that starts, with or without the configured address of a DNS.
pub with_dns-IsSound : (dns : Option Addr) → IsSound (record new_udpgw { dns_addr = dns })
unfolding new_udpgw elem
with_dns-IsSound dns = record {
  valid = record { keyed = tt; distinct = tt; bounded = omega arith };
  tracked = λ r h. absurd (cc);
  positive = omega arith;
}

pub new_udpgw-IsSound : IsSound new_udpgw
unfolding new_udpgw elem
new_udpgw-IsSound = with_dns-IsSound none

-- Behind any packets, sweeps, and readers that end while their id is still theirs, closing a gateway
-- that was new closes every socket that it has dialled, and empties its table.
pub close_all_closes :
    {u : Udpgw} (r : ℕ)
    → Reach new_udpgw u
    → elem r u.opened ≡ true
    → (elem r (close_all u).closed ≡ true) × ((close_all u).conn_list ≡ [])
unfolding close_all elem
close_all_closes {u} r reach h =
    let t = close_all-IsTracked u (Reach-IsSound new_udpgw-IsSound reach).tracked r in
    (ground (arith, t), refl)
