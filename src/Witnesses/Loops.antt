-- ===== src/Witnesses/Loops.antt =====
-- The loop of a client's pool, with one tick, and its test of three dialers.
use gocs.Prelude.{ℕ, none, Option, List, [], ◌∷◌, Bytes, codes, ◌==◌, bytes_eq, if◌then◌else◌}
use gocs.Errors.{Error, errorf, Result, ok, err}
use gocs.Channel.{Conn, Raw, new_channel_conn, cmd_conn_back}
use gocs.Dialers.Sorted.{Sorted}
use gocs.CoreClient.{Client, new_client}
use gocs.CoreClient.Loop.{Loop, test_dialer, new_loop, tick}
use gocs.Witnesses.Routes.{hundredths, three, key_a}

-- The echo answers whatever is sent.
abbrev echo : Conn → Option Error × Conn
echo c = (none, c)

abbrev raw : Raw
raw = record {
  incoming = ok (record { command = cmd_conn_back; body = codes "ok" }) ∷ [];
  outcomes = [];
}

-- The first dialer refuses, the others lead to a server that answers.
abbrev dials : Bytes → Result Raw × ℕ
dials key = if key == key_a then (err (errorf (codes "down")), 3) else (ok raw, 4)

abbrev kept : List Bytes → List Bytes
kept keys = keys

abbrev test : ℕ → Sorted hundredths → Sorted hundredths
test = test_dialer echo echo hundredths kept dials

abbrev first : Client
first = new_client 1024 (λ k. new_channel_conn 0 0 raw) []

abbrev once : Loop (Sorted hundredths)
once = tick test 900 1000 50 (new_loop 0 first three)
