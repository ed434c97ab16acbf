-- ===== src/CoreServer.antt =====
-- Server of core/cs.go: it serves dials over one channel, one session after the other. The dialer
-- is a parameter: what it answers to its n-th call for a target, an error or a piper, which is what
-- PipeConn does to the channel. `conns` is the set of the channels being served; the locks around
-- it make each access one step.
pub mod Sessions
pub mod Refusals
use gocs.Prelude.{
  ℕ, zero, suc, ◌+◌, Bool, true, false, Option, none, some, List, [], ◌∷◌, Bytes, codes, not, eqb,
  if◌then◌else◌,
}
use gocs.Prelude.Keys.{add, remove}
use gocs.Errors.{Error, errorf, message, Result, ok, err}
use gocs.Channel.{
  Frame, Conn, Raw, new_channel_conn, cmd_conn_dial, cmd_conn_back, read_frame, write_command,
  close,
}

pub record Server : Type 0 where
  pub buffer_size : ℕ
  pub conns : List ℕ

pub new_server : ℕ → Server
new_server buffer_size = record { buffer_size = buffer_size; conns = [] }

abbrev pub Piper : Type 0
Piper = Conn → Conn

abbrev pub PiperDialer : Type 0
PiperDialer = ℕ → Bytes → Result Piper

abbrev pub mark : Conn → Error → Conn
mark c e = record c { error = some e }

-- One session: the answer, the transfer under the target's name, and the reset.
abbrev pub session : Bytes → Piper → Conn → Conn
session target piper c =
    record (piper (record (write_command cmd_conn_back (codes "ok") c).1 { using = target })) {
      using = [];
    }

-- What one round of the loop in ProcConn comes to: `break`, or the next round.
pub data Round : Type 0 where
  breaks goes_on : Conn → Round

abbrev pub after_session : Conn → Round
after_session c = elim c.error [ some e ↦ breaks c | none ↦ goes_on c ]

abbrev pub after_dial : Bytes → Conn → Result Piper → Round
after_dial target c (err e) = goes_on (write_command cmd_conn_back (message e) c).1
after_dial target c (ok piper) = after_session (session target piper c)

module _ (dialer : PiperDialer) where
  abbrev pub after_frame : ℕ → Result Frame × Conn → Round
  after_frame n (err e, c) = breaks (mark c e)
  after_frame n (ok frame, c) =
      if eqb frame.command cmd_conn_dial
      then after_dial frame.body c (dialer n frame.body)
      else breaks (mark c (errorf (codes "protocol error")))

  unfoldable pub round : ℕ → Conn → Round
  round n c = after_frame n (read_frame c)

  -- The loop of ProcConn, its dials numbered from n; `none` means that the fuel ran out.
  pub serve : ℕ → ℕ → Conn → Option Conn
  serve zero n c = none
  serve (suc fuel) n c = elim (round n c) [ breaks d ↦ some d | goes_on d ↦ serve fuel (suc n) d ]

  finish : Server → Option Conn → Option (Server × Conn)
  finish s none = none
  finish s (some c) = some (record s { conns = remove c.key s.conns }, close c)

  -- ProcConn on a new connection whose channel object has this address.
  pub proc_conn : ℕ → Server → ℕ → ℕ → Raw → Option (Server × Conn)
  unfolding finish serve
  proc_conn fuel s key now raw =
      finish (record s { conns = add key s.conns }) (serve fuel 0 (new_channel_conn key now raw))

-- Close: every channel that is being served.
pub close_conns : List ℕ → (ℕ → Conn) → ℕ → Conn
close_conns [] heap j = heap j
close_conns (k ∷ ks) heap j =
    if eqb k j then close (close_conns ks heap j) else close_conns ks heap j
