-- ===== src/CoreClient/Tunnel.antt =====
-- A dial through a channel: DialPiper of the client at one end, a round of ProcConn at the other.
use gocs.Prelude.{ℕ, ◌≡◌, true, none, List, [], ◌∷◌, Bytes, codes, bytes_eq}
use gocs.Prelude.Keys.{elem}
use gocs.Errors.{errorf, message, Result, ok, err}
use gocs.Channel.{Frame, Conn, cmd_conn_back, write_command}
use gocs.CoreServer.{Piper, Round, goes_on, after_session}
use gocs.CoreClient.{Client, Dialed, refused, dialed, pull_conn}

-- A healthy channel outside a session, on which writes succeed.
abbrev pub IsFresh : Conn → Type 0
IsFresh c = (c.error ≡ none) × (c.using ≡ []) × (c.faults ≡ [])

-- What the peer reads of the last frame of this end.
abbrev pub arriving : Conn → List (Result Frame)
arriving c = elim c.sent [ [] ↦ [] | f ∷ fs ↦ ok f ∷ [] ]

-- The text of the answer of ProcConn, and its channel behind it.
abbrev pub answer_text : Result Piper → Bytes
answer_text (ok piper) = codes "ok"
answer_text (err e) = message e

abbrev pub answered : Result Piper → Conn → Conn
answered r d = (write_command cmd_conn_back (answer_text r) d).1

-- The rest of its round: the transfer of a session, or nothing.
abbrev pub continues : Bytes → Result Piper → Conn → Round
continues target (ok piper) d =
    after_session (record (piper (record d { using = target })) { using = [] })
continues target (err e) d = goes_on d

-- The pullConn of the first try.
abbrev pub pulled : (ℕ → ℕ × ℕ) → Client → Result ℕ × Client
pulled env c = pull_conn (env 0).0 (env 0).1 c

-- What DialPiper comes to on the channel k.
abbrev pub Tunnels : Bytes → ℕ → Result Piper → Dialed × Client → Type 0
Tunnels target k (ok piper) (r, c) = (r ≡ dialed k) × ((c.heap k).using ≡ target)
Tunnels target k (err e) (r, c) = (r ≡ refused (errorf (message e))) × (elem k c.idles ≡ true)
