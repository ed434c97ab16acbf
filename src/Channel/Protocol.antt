-- ===== src/Channel/Protocol.antt =====
-- What a channel accepts, and what its operations do to it on every branch.
use gocs.Prelude.{
  suc, length, ◌≡◌, ◌≢◌, ◌↔◌, ◌⊎◌, inl, inr, refl, ap, true, none, some, List, [], ◌∷◌, Bytes,
  codes, arith, bytes_eq,
}
use gocs.Errors.{Error, errorf, eof, Result, ok, err}
use gocs.Channel.{
  Frame, Conn, cmd_conn_dial, cmd_conn_back, cmd_conn_data, cmd_conn_close, raw_read, raw_write,
  check_frame, read_frame, write_command, close,
}

-- Between sessions a channel takes dials and their answers, within one it takes data.
abbrev pub Accepts : Bytes → Frame → Type 0
Accepts using f =
    ((using ≡ []) × ((f.command ≡ cmd_conn_dial) ⊎ (f.command ≡ cmd_conn_back)))
    ⊎ ((using ≢ []) × (f.command ≡ cmd_conn_data))

abbrev next : List (Result Frame) → Result Frame
next [] = err eof
next (r ∷ rest) = r

abbrev later : List (Result Frame) → List (Result Frame)
later [] = []
later (r ∷ rest) = rest

abbrev pub upcoming : Conn → Result Frame
upcoming c = next c.inbox

check_frame-ok :
    (c : Conn) (f g : Frame) → ((check_frame c f).0 ≡ ok g) ↔ ((f ≡ g) × Accepts c.using g)
unfolding check_frame
check_frame-ok c f g = (λ h. ground arith, λ h. ground arith)

-- ReadFrame returns a frame exactly if the raw connection has it next and the channel's state
-- accepts its command: dial and back outside a session, data in one.
pub read_frame-ok :
    (c : Conn) (f : Frame) → ((read_frame c).0 ≡ ok f) ↔ ((upcoming c ≡ ok f) × Accepts c.using f)
unfolding read_frame raw_read
read_frame-ok c f = go c.inbox refl
  where
    go :
        (q : List (Result Frame))
        → c.inbox ≡ q
        → ((read_frame c).0 ≡ ok f) ↔ ((upcoming c ≡ ok f) × Accepts c.using f)
    go [] e = (λ h. ground arith, λ h. ground arith)
    go (err x ∷ rest) e = (λ h. ground arith, λ h. ground arith)
    go (ok g ∷ rest) e =
        let k = check_frame-ok (record c { inbox = rest }) g f in
        rw (e, read_frame) (λ h. let p = k.0 h in (ap ok p.0, p.1), λ h. k.1 (ground arith, h.1))

-- The peer has ended the session with this error.
abbrev pub IsRemoteClose : Conn → Error → Type 0
IsRemoteClose c e =
    (f : Frame) × (upcoming c ≡ ok f) × (f.command ≡ cmd_conn_close) × (e ≡ errorf f.body)

check_frame-err :
    (c : Conn) (f : Frame) (e : Error)
    → (check_frame c f).0 ≡ err e
    → ((check_frame c f).1.error ≡ some e)
      ⊎ ((f.command ≡ cmd_conn_close) × (e ≡ errorf f.body) × ((check_frame c f).1.error ≡ c.error))
unfolding check_frame
check_frame-err c f e h = ground arith

-- A failing ReadFrame marks the connection as broken with the error that it returns, except when
-- the peer has closed the session: then the connection keeps the mark that it had.
pub read_frame-err :
    (c : Conn) (e : Error)
    → (read_frame c).0 ≡ err e
    → ((read_frame c).1.error ≡ some e) ⊎ (IsRemoteClose c e × ((read_frame c).1.error ≡ c.error))
unfolding read_frame raw_read
read_frame-err c e h = go c.inbox refl
  where
    go :
        (q : List (Result Frame))
        → c.inbox ≡ q
        → ((read_frame c).1.error ≡ some e)
          ⊎ (IsRemoteClose c e × ((read_frame c).1.error ≡ c.error))
    go [] p = inl (ground arith)
    go (err x ∷ rest) p = inl (ground arith)
    go (ok g ∷ rest) p = elim (check_frame-err (record c { inbox = rest }) g e (ground arith)) [
      | inl marked ↦ inl (rw (p, read_frame) marked)
      | inr closed ↦ inr (((g, rw p, closed.0, closed.1)), rw (p, read_frame) closed.2)
    ]

-- Reading takes the next answer off the raw connection, and changes nothing else but the mark.
pub read_frame-keeps :
    (c : Conn)
    → (read_frame c).1 ≡ record c { inbox = later c.inbox; error = (read_frame c).1.error }
unfolding read_frame raw_read check_frame
read_frame-keeps c = ground arith

-- A frame that ReadFrame returns is one answer less to come.
pub read_frame-shorter :
    (c : Conn) (f : Frame)
    → (read_frame c).0 ≡ ok f
    → suc (length (read_frame c).1.inbox) ≡ length c.inbox
unfolding read_frame raw_read check_frame
read_frame-shorter c f h = ground arith

abbrev pub close_frame : Frame
close_frame = record { command = cmd_conn_close; body = codes "closed" }

-- Close either sends the close command over a connection that no error has marked and leaves the
-- raw connection as it was, or it closes the raw connection and sends nothing: the latter exactly
-- where the connection is marked afterwards, by an earlier error or by that of the write.
pub close_branches :
    (c : Conn)
    → (((close c).error ≡ none)
        × (c.error ≡ none)
        × ((close c).sent ≡ close_frame ∷ c.sent)
        × ((close c).raw_closed ≡ c.raw_closed))
      ⊎ (((close c).error ≢ none) × ((close c).raw_closed ≡ true) × ((close c).sent ≡ c.sent))
unfolding close write_command raw_write
close_branches c = ground arith

-- A marked connection stays marked, and its raw connection is closed.
pub close-marked :
    (c : Conn) (e : Error)
    → c.error ≡ some e
    → ((close c).error ≡ some e) × ((close c).raw_closed ≡ true)
unfolding close write_command raw_write
close-marked c e h = ground arith

-- Close changes nothing of the object's address, session and age.
pub close-keeps :
    (c : Conn)
    → ((close c).key ≡ c.key) × ((close c).using ≡ c.using) × ((close c).last_used ≡ c.last_used)
unfolding close write_command raw_write
close-keeps c = ground arith
