-- ===== src/Witnesses/Channels.antt =====
-- Concrete channels for ChannelConn and Server of core/cs.go.
use mathlib.Core.Path.{subst}
use gocs.Prelude.{ℕ, ◌≡◌, ◌↔◌, refl, true, false, none, some, List, [], ◌∷◌, Bytes, codes, arith}
use gocs.Prelude.Keys.{elem}
use gocs.Errors.{Error, errorf, eof, Result, ok, err}
use gocs.Channel.{Frame, Conn, Raw, cmd_conn_data, cmd_conn_close, cmd_conn_dial, read_frame}
use gocs.Channel.Protocol.{Accepts, upcoming, read_frame-ok}
use gocs.Prelude.{bytes_eq}
use gocs.CoreServer.{Server, Piper, PiperDialer, proc_conn, serve, mark}
use gocs.CoreServer.Sessions.{IsTransfer, TransfersOnly, proc_conn-ends}
use gocs.CoreServer.Refusals.{dialing, answers, serve-refused}

abbrev hello : Frame
hello = record { command = cmd_conn_data; body = codes "hello" }

abbrev bye : Frame
bye = record { command = cmd_conn_close; body = codes "bye" }

abbrev channel : List (Result Frame) → Conn
channel inbox = record {
  key = 5;
  last_used = 0;
  error = none;
  using = codes "tcp://web:80";
  inbox = inbox;
  faults = [];
  sent = [];
  raw_closed = false;
}

read_frame-ok_example :
    ((read_frame (channel (ok hello ∷ []))).0 ≡ ok hello)
    ↔ ((upcoming (channel (ok hello ∷ [])) ≡ ok hello) × Accepts (codes "tcp://web:80") hello)
read_frame-ok_example = read_frame-ok (channel (ok hello ∷ [])) hello

-- A transfer that reads all there is.
abbrev drain : Piper
drain c = record c { inbox = [] }

drain-IsTransfer : IsTransfer drain
drain-IsTransfer = record { same_key = λ c. refl; consumes = λ c. omega arith }

abbrev draining : PiperDialer
draining n target = ok drain

draining-TransfersOnly : TransfersOnly draining
draining-TransfersOnly n target p e =
    let q : drain ≡ p = ground arith in subst IsTransfer q drain-IsTransfer

abbrev dial_web : Frame
dial_web = record { command = cmd_conn_dial; body = codes "tcp://web:80" }

abbrev raw : Raw
raw = record { incoming = ok dial_web ∷ []; outcomes = [] }

abbrev server : Server
server = record { buffer_size = 1024; conns = 3 ∷ [] }

proc_conn-ends_example :
    (c : Conn) × (proc_conn draining 2 server 5 0 raw ≡ some (server, c)) × (c.raw_closed ≡ true)
unfolding elem
proc_conn-ends_example =
    proc_conn-ends draining draining-TransfersOnly 2 server 5 0 raw (omega arith) refl

abbrev refusal : ℕ → Bytes → Error
refusal n target = errorf target

abbrev targets : List Bytes
targets = codes "a" ∷ codes "b" ∷ []

serve-refused_test :
    serve (λ n t. err (refusal n t)) 3 0 (dialing (channel []) targets [])
    ≡ some (mark (dialing (channel []) [] (answers refusal 0 targets [])) eof)
serve-refused_test =
    serve-refused (λ n t. err (refusal n t)) refusal (channel []) 0 targets [] (λ k t. refl)
