-- ===== src/Udpgw.antt =====
-- udpgw/udpgw.go: the UDP gateway behind the target tcp://udpgw. Times are numbers of one clock,
-- sockets are numbers too. `Env` is what the system answers during one call; `opened`, `closed` and
-- `sent` are not in the program: they record the sockets that were dialled and those that were
-- closed, and the datagrams with the socket that each was written to.
pub mod Header
pub mod Bounds
pub mod Delivery
pub mod Pipe
pub mod Life
pub mod Sockets
pub mod Timer
pub mod Timeout
pub mod Packets
pub mod Registry
use gocs.Prelude.{
  ℕ, zero, suc, ◌+◌, ◌-◌, ◌<◌, ◌≤◌, ◌≡◌, Bool, true, false, Option, none, some, List, [], ◌∷◌, ◌++◌,
  Bytes, codes, ltb, leb, eqb, if◌then◌else◌, length, nat_eq,
}
use gocs.Prelude.Dict.{Dict, lookup, insert, delete}
use gocs.Errors.{Error, errorf, Result, ok, err}
use Header.{Addr, parse, packet, data_error, keeps_alive, panics, dns, has_flag}

pub record UdpConn : Type 0 where
  pub raw : ℕ
  pub addr : Addr
  pub orig : Addr
  pub conid : ℕ
  pub flags : ℕ
  pub latest : ℕ

pub record Udpgw : Type 0 where
  pub mtu : ℕ
  pub dns_addr : Option Addr
  pub max_conn : ℕ
  pub conn_list : Dict ℕ UdpConn
  pub opened : List ℕ
  pub closed : List ℕ
  pub sent : List (ℕ × Bytes)

unfoldable pub new_udpgw : Udpgw
new_udpgw = record {
  mtu = 2048;
  dns_addr = none;
  max_conn = 16;
  conn_list = [];
  opened = [];
  closed = [];
  sent = [];
}

-- The clock; net.DialUDP's new socket or error; the count and error of the socket's Write.
pub record Env : Type 0 where
  pub now : ℕ
  pub dial : Result ℕ
  pub written : ℕ
  pub write_error : Option Error

pub data Outcome : Type 0 where
  returned : ℕ → Option Error → Outcome
  panicked : Outcome

-- `oldest == nil || oldest.latest.After(conn.latest)`
abbrev pub older : Option UdpConn → UdpConn → UdpConn
older none conn = conn
older (some o) conn = if ltb conn.latest o.latest then conn else o

unfoldable pub oldest : Option UdpConn → Dict ℕ UdpConn → Option UdpConn
oldest best [] = best
oldest best ((k, conn) ∷ m) = oldest (some (older best conn)) m

abbrev pub evict : Udpgw → Option UdpConn → Udpgw
evict u none = u
evict u (some o) = record u { conn_list = delete o.conid u.conn_list; closed = o.raw ∷ u.closed }

unfoldable pub limit_conn : Udpgw → Udpgw
limit_conn u = if ltb (length u.conn_list) u.max_conn then u else evict u (oldest none u.conn_list)

-- Where the datagrams of a new connection go.
abbrev pub dial_addr : Udpgw → ℕ → Addr → Addr
dial_addr u flags orig = elim u.dns_addr [
  | none ↦ orig
  | some d ↦ if has_flag flags dns then d else orig
]

-- `conn.latest = time.Now()` through the pointer in the table, and the write of the datagram.
abbrev pub send : Env → Udpgw → ℕ → UdpConn → ℕ → Bytes → Outcome × Udpgw
send env u conid conn ip_length payload = (
  returned (env.written + (ip_length + 5)) env.write_error,
  record u {
    conn_list = insert conid (record conn { latest = env.now }) u.conn_list;
    sent = (conn.raw, payload) ∷ u.sent;
  },
)

abbrev pub new_conn : Env → Udpgw → ℕ → ℕ → ℕ → Addr → UdpConn
new_conn env u raw flags conid orig = record {
  raw = raw;
  addr = dial_addr u flags orig;
  orig = orig;
  conid = conid;
  flags = flags;
  latest = env.now;
}

-- A packet of a connection that is not in the table.
unfoldable pub open_conn : Env → Udpgw → ℕ → ℕ → Addr → Bytes → Outcome × Udpgw
unfolding limit_conn
open_conn env u flags conid orig payload =
    let u' = limit_conn u in
    elim env.dial [
      | err e ↦ (returned 0 (some e), u')
      | ok raw ↦
          send env (record u' { opened = raw ∷ u'.opened }) conid
            (new_conn env u raw flags conid orig) (length orig.ip) payload
    ]

unfoldable pub deliver : Env → Udpgw → ℕ → ℕ → Addr → Bytes → Outcome × Udpgw
unfolding open_conn
deliver env u flags conid orig payload = elim (lookup conid u.conn_list) [
  | none ↦ open_conn env u flags conid orig payload
  | some conn ↦ send env u conid conn (length orig.ip) payload
]

unfoldable pub proc_data : Env → Udpgw → Bytes → Outcome × Udpgw
unfolding parse deliver
proc_data env u p = elim (parse p) [
  | data_error ↦ (returned 0 (some (errorf (codes "data error"))), u)
  | keeps_alive ↦ (returned (length p) none, u)
  | panics ↦ (panicked, u)
  | packet flags conid orig payload ↦ deliver env u flags conid orig payload
]

-- The deferred part of procRead, when its connection's socket has failed.
pub end_read : Udpgw → UdpConn → Udpgw
end_read u conn = record u {
  conn_list = delete conn.conid u.conn_list;
  closed = conn.raw ∷ u.closed;
}

unfoldable pub raws : Dict ℕ UdpConn → List ℕ
raws [] = []
raws ((k, conn) ∷ m) = conn.raw ∷ raws m

-- cloaseAllConn, which is all that Close does.
pub close_all : Udpgw → Udpgw
unfolding raws
close_all u = record u { conn_list = []; closed = raws u.conn_list ++ u.closed }

-- `now.Sub(conn.latest) > timeout`
abbrev pub is_expired : ℕ → ℕ → UdpConn → Bool
is_expired now timeout conn = ltb timeout (now - conn.latest)

pub expired_raws : ℕ → ℕ → Dict ℕ UdpConn → List ℕ
expired_raws now timeout [] = []
expired_raws now timeout ((k, conn) ∷ m) =
    let rest = expired_raws now timeout m in
    if is_expired now timeout conn then conn.raw ∷ rest else rest

pub live_conns : ℕ → ℕ → Dict ℕ UdpConn → Dict ℕ UdpConn
live_conns now timeout [] = []
live_conns now timeout ((k, conn) ∷ m) =
    let rest = live_conns now timeout m in
    if is_expired now timeout conn then rest else (k, conn) ∷ rest

-- The inner loop of procTimeout, over one gateway.
pub time_out : ℕ → ℕ → Udpgw → Udpgw
unfolding expired_raws live_conns
time_out now timeout u = record u {
  conn_list = live_conns now timeout u.conn_list;
  closed = expired_raws now timeout u.conn_list ++ u.closed;
}

-- procTimeout: every gateway that is registered in allUDPGW.
unfoldable pub proc_timeout : ℕ → ℕ → Dict ℕ Udpgw → Dict ℕ Udpgw
unfolding time_out
proc_timeout now timeout [] = []
proc_timeout now timeout ((k, u) ∷ m) = (k, time_out now timeout u) ∷ proc_timeout now timeout m

pub data Ended : Type 0 where
  by_read_error by_panic : Ended

-- What happens to a gateway while the loop of its PipeConn runs: a frame arrives, or, beside the
-- loop, the timer sweeps or the reader of a connection ends.
pub data Event : Type 0 where
  arrives : Env → Bytes → Event
  sweeps : ℕ → ℕ → Event
  reader_ends : UdpConn → Event

-- The loop of PipeConn over the events up to the ReadFrame that fails. The error that procData
-- returns is dropped; a panic leaves the loop.
unfoldable pub pipe_frames : Udpgw → List Event → Ended × Udpgw
unfolding time_out end_read
pipe_frames u [] = (by_read_error, u)
pipe_frames u (arrives env p ∷ events) =
    let next = proc_data env u p in
    elim next.0 [ returned n e ↦ pipe_frames next.1 events | panicked ↦ (by_panic, next.1) ]
pipe_frames u (sweeps now timeout ∷ events) = pipe_frames (time_out now timeout u) events
pipe_frames u (reader_ends conn ∷ events) = pipe_frames (end_read u conn) events

-- What PipeConn returns or how it ends, and the gateway behind its deferred calls.
pub data Piped : Type 0 where
  refused : Error → Piped
  stopped crashed : Piped

abbrev ending : Ended → Piped
ending by_read_error = stopped
ending by_panic = crashed

unfoldable pub pipe_conn : Bool → Udpgw → List Event → Piped × Udpgw
unfolding pipe_frames close_all
pipe_conn is_frame u events =
    let run = pipe_frames u events in
    if is_frame
    then (ending run.0, close_all run.1)
    else (refused (errorf (codes "conn is not frame.ReadWriteCloser")), close_all u)
