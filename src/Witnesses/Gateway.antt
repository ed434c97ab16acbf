-- ===== src/Witnesses/Gateway.antt =====
-- Concrete gateways for udpgw/udpgw.go.
use gocs.Prelude.{
  All, ℕ, ◌≡◌, ◌↔◌, refl, true, none, some, List, [], ◌∷◌, Bytes, codes, arith, nat_eq,
}
use gocs.Prelude.Keys.{elem}
use gocs.Errors.{ok}
use gocs.Udpgw.Header.{Addr, packet, parse, reply_frame, reply_flags}
use gocs.Udpgw.Bounds.{IsBounded}
use gocs.Udpgw.Life.{
  IsSound, Reach, here, after, arrives, Reach-IsSound, close_all_closes, new_udpgw-IsSound,
}
use gocs.Udpgw.Pipe.{NoPanic, pipe_conn-stopped}
use gocs.Udpgw.Registry
use gocs.Udpgw.Registry.{
  Gateways, no_gateways, take_out, Move, enters, leaves, IsClosed, Reach-IsOrderly,
}
use gocs.Udpgw.Packets.{parse-reply_frame}
use gocs.Udpgw.{
  UdpConn, Udpgw, Event, Env, proc_data, close_all, new_udpgw, pipe_conn, stopped, time_out,
  proc_timeout,
}

abbrev dns_host : Addr
dns_host = record { ip = 8 ∷ 8 ∷ 8 ∷ 8 ∷ []; port = 53 }

abbrev conn : ℕ → ℕ → ℕ → UdpConn
conn conid raw latest = record {
  raw = raw;
  addr = dns_host;
  orig = dns_host;
  conid = conid;
  flags = 0;
  latest = latest;
}

-- Two connections, as many as there may be; the second is older.
abbrev full : Udpgw
full = record {
  mtu = 2048;
  dns_addr = none;
  max_conn = 2;
  conn_list = (1, conn 1 7 10) ∷ (2, conn 2 8 5) ∷ [];
  opened = 8 ∷ 7 ∷ [];
  closed = [];
  sent = [];
}

abbrev env : Env
env = record { now = 20; dial = ok 9; written = 2; write_error = none }

-- A datagram of two bytes to 8.8.8.8:53 on a connection with this id.
abbrev frame : ℕ → Bytes
frame conid = 0 ∷ 0 ∷ conid ∷ 8 ∷ 8 ∷ 8 ∷ 8 ∷ 0 ∷ 53 ∷ 104 ∷ 105 ∷ []

full-IsBounded : IsBounded full
full-IsBounded = record {
  keyed = (refl, (refl, tt));
  distinct = (refl, (refl, tt));
  bounded = omega arith;
}

abbrev served : Udpgw
served = (proc_data env new_udpgw (frame 3)).1

served-Reach : Reach new_udpgw served
served-Reach = after here (arrives env (frame 3) refl)

Reach-IsSound_test : IsSound served
Reach-IsSound_test = Reach-IsSound new_udpgw-IsSound served-Reach

served_opened : elem 9 served.opened ≡ true
unfolding elem proc_data new_udpgw parse
served_opened = refl

close_all_closes_example :
    (elem 9 (close_all served).closed ≡ true) × ((close_all served).conn_list ≡ [])
close_all_closes_example = close_all_closes 9 served-Reach served_opened

abbrev events : List Event
events =
    Event.arrives env (frame 3)
    ∷ Event.sweeps 9 30
    ∷ Event.reader_ends (conn 1 3 0)
    ∷ Event.arrives env (0 ∷ 0 ∷ 3 ∷ 8 ∷ [])
    ∷ []

pipe_conn-stopped_example : ((pipe_conn true full events).0 ≡ stopped) ↔ NoPanic events
pipe_conn-stopped_example = pipe_conn-stopped full events

parse-reply_frame_example :
    (f : Bytes) × (reply_frame 2048 4 513 dns_host (codes "hi") ≡ some f)
    × (parse f ≡ packet (reply_flags 4) 513 dns_host (codes "hi"))
parse-reply_frame_example =
    parse-reply_frame 2048 4 513 dns_host (codes "hi") (omega arith) (omega arith) refl
      (omega arith)

abbrev after_known : Udpgw
after_known = (proc_data env full (frame 1)).1

abbrev entered : Udpgw
entered = record new_udpgw { dns_addr = some dns_host }

-- A connection to a server with a DNS comes, brings a packet, is swept, and ends.
abbrev busy : Gateways
busy = record no_gateways { registry = (7, (proc_data env entered (frame 1)).1) ∷ [] }

abbrev over : Gateways
over =
    take_out 7 (time_out 9 30 (proc_data env entered (frame 1)).1)
      (record busy { registry = proc_timeout 9 30 busy.registry })

over-Reach : Registry.Reach no_gateways over
unfolding proc_timeout
over-Reach =
    Registry.Reach.after
      (Registry.Reach.after
        (Registry.Reach.after
          (Registry.Reach.after Registry.Reach.here (enters 7 (some dns_host) refl))
          (Move.arrives 7 entered env (frame 1) refl))
        (Move.sweeps 9 30))
      (leaves 7 (time_out 9 30 (proc_data env entered (frame 1)).1) refl)

Reach-IsOrderly_example :
    All (λ (e : ℕ × Udpgw). IsSound e.1) over.registry × All IsClosed over.ended
Reach-IsOrderly_example = Reach-IsOrderly over-Reach
