-- ===== src/CoreServer/Refusals.antt =====
-- Dials that the server's dialer refuses.
use gocs.Prelude.{ℕ, suc, ◌≡◌, refl, some, List, [], ◌∷◌, Bytes, length, map}
use gocs.Errors.{Error, message, eof, Result, ok, err}
use gocs.Channel.{Frame, Conn, cmd_conn_dial, cmd_conn_back, read_frame, write_command}
use gocs.CoreServer.{PiperDialer, round, serve, mark}

abbrev pub dial_frame : Bytes → Result Frame
dial_frame target = ok (record { command = cmd_conn_dial; body = target })

abbrev pub refusal_frame : Error → Frame
refusal_frame e = record { command = cmd_conn_back; body = message e }

-- The frames sent in answer to dials of these targets, numbered from n, on top of earlier ones.
abbrev pub answers : (ℕ → Bytes → Error) → ℕ → List Bytes → List Frame → List Frame
answers refusal n [] sent = sent
answers refusal n (t ∷ ts) sent = answers refusal (suc n) ts (refusal_frame (refusal n t) ∷ sent)

-- A channel outside a session whose peer dials these targets and then hangs up, and on which
-- writes succeed.
abbrev pub dialing : Conn → List Bytes → List Frame → Conn
dialing c targets sent = record c {
  inbox = map dial_frame targets;
  faults = [];
  using = [];
  sent = sent;
}

-- Where the dialer refuses every dial, the server answers each one with the dialer's message, in
-- order and with nothing else, keeps the channel, and stops only when the peer hangs up.
pub serve-refused :
    (dialer : PiperDialer) (refusal : ℕ → Bytes → Error) (c : Conn) (n : ℕ) (targets : List Bytes)
    (sent : List Frame)
    → ((k : ℕ) (t : Bytes) → dialer k t ≡ err (refusal k t))
    → serve dialer (suc (length targets)) n (dialing c targets sent)
      ≡ some (mark (dialing c [] (answers refusal n targets sent)) eof)
unfolding serve round read_frame write_command
serve-refused dialer refusal c n [] sent refuses = refl
serve-refused dialer refusal c n (t ∷ ts) sent refuses =
    rw (refuses n t, serve)
      (serve-refused dialer refusal c (suc n) ts (refusal_frame (refusal n t) ∷ sent) refuses)
