-- ===== src/CoreServer/Sessions.antt =====
-- The sessions of one channel: the loop of ProcConn ends, it ends broken, and every dial that is
-- refused is answered.
use gocs.Prelude.{
  ℕ, zero, suc, ◌<◌, ◌≤◌, ◌≡◌, inl, inr, refl, ap, ◌∙◌, true, false, Option, none, some, Bytes,
  codes, eqb, arith, length, Bool-cases,
}
use gocs.Prelude.Keys.{elem, add, remove, remove-add}
use gocs.Errors.{Error, errorf, message, Result, ok, err}
use gocs.Channel.{
  Frame, Conn, Raw, new_channel_conn, cmd_conn_dial, cmd_conn_back, read_frame, write_command,
  close, raw_write,
}
use gocs.Channel.Protocol.{read_frame-keeps, read_frame-shorter, close-marked}
use gocs.CoreServer.{
  Server, Piper, PiperDialer, Round, breaks, goes_on, session, after_session, after_dial,
  after_frame, round, serve, finish, proc_conn,
}

-- What the code relies on: a transfer uses the channel object, and does not replace it, and it
-- makes up nothing that the raw connection will still deliver.
pub record IsTransfer (p : Piper) : Type 0 where
  pub same_key : (c : Conn) → (p c).key ≡ c.key
  pub consumes : (c : Conn) → length (p c).inbox ≤ length c.inbox

abbrev pub TransfersOnly : PiperDialer → Type 0
TransfersOnly dialer = (n : ℕ) (target : Bytes) (p : Piper) → dialer n target ≡ ok p → IsTransfer p

read_frame-key : (c : Conn) → (read_frame c).1.key ≡ c.key
read_frame-key c = ap (λ (x : Conn). x.key) (read_frame-keeps c)

write_command-keeps :
    (cmd : ℕ) (b : Bytes) (c : Conn)
    → ((write_command cmd b c).1.key ≡ c.key) × ((write_command cmd b c).1.inbox ≡ c.inbox)
unfolding write_command raw_write
write_command-keeps cmd b c = ground arith

-- How the loop ends: with the channel object that it had, broken.
abbrev pub EndsBroken : Conn → Option Conn → Type 0
EndsBroken c r = (d : Conn) × (e : Error) × (r ≡ some d) × (d.error ≡ some e) × (d.key ≡ c.key)

module _ (dialer : PiperDialer) (transfers : TransfersOnly dialer) where
  session_facts :
      (n : ℕ) (target : Bytes) (p : Piper) (c : Conn)
      → dialer n target ≡ ok p
      → ((session target p c).key ≡ c.key) × (length (session target p c).inbox ≤ length c.inbox)
  session_facts n target p c h =
      let t = transfers n target p h in
      let told = (write_command cmd_conn_back (codes "ok") c).1 in
      let w = write_command-keeps cmd_conn_back (codes "ok") c in
      (
        t.same_key (record told { using = target }) ∙ w.0,
        omega (
          arith,
          t.consumes (record told { using = target }),
          ap (length {A = Result Frame}) w.1,
        ),
      )

  -- What a round promises: a `break` leaves the channel broken, the next round has less to read.
  abbrev RoundOf : Conn → Round → Type 0
  RoundOf c (breaks d) = ((e : Error) × (d.error ≡ some e)) × (d.key ≡ c.key)
  RoundOf c (goes_on d) = (length d.inbox < length c.inbox) × (d.key ≡ c.key)

  after_session-RoundOf :
      (c d : Conn) → d.key ≡ c.key → length d.inbox < length c.inbox → RoundOf c (after_session d)
  after_session-RoundOf c d k l = go d.error refl
    where
      go :
          (x : Option Error)
          → d.error ≡ x
          → RoundOf c (elim x [ some e ↦ breaks d | none ↦ goes_on d ])
      go none e = (l, k)
      go (some x) e = ((x, e), k)

  -- A dial command that was read leaves a channel d with fewer answers to come.
  after_dial-RoundOf :
      (n : ℕ) (target : Bytes) (c d : Conn) (r : Result Piper)
      → dialer n target ≡ r
      → d.key ≡ c.key
      → length d.inbox < length c.inbox
      → RoundOf c (after_dial target d r)
  after_dial-RoundOf n target c d (err e) q k l =
      let w = write_command-keeps cmd_conn_back (message e) d in
      (omega (arith, ap (length {A = Result Frame}) w.1), w.0 ∙ k)
  after_dial-RoundOf n target c d (ok p) q k l =
      let s = session_facts n target p d q in
      after_session-RoundOf c (session target p d) (s.0 ∙ k) (omega (arith, s.1))

  after_frame-RoundOf :
      (n : ℕ) (c d : Conn) (r : Result Frame)
      → d.key ≡ c.key
      → ((f : Frame) → r ≡ ok f → suc (length d.inbox) ≡ length c.inbox)
      → RoundOf c (after_frame dialer n (r, d))
  after_frame-RoundOf n c d (err e) k l = ((e, refl), k)
  after_frame-RoundOf n c d (ok f) k l = elim (Bool-cases (eqb f.command cmd_conn_dial)) [
    | inl dials ↦
        rw dials
          (after_dial-RoundOf n f.body c d (dialer n f.body) refl k (omega (arith, l f refl)))
    | inr other ↦ rw other ((errorf (codes "protocol error"), refl), k)
  ]

  round-RoundOf : (n : ℕ) (c : Conn) → RoundOf c (round dialer n c)
  unfolding round
  round-RoundOf n c =
      after_frame-RoundOf n c (read_frame c).1 (read_frame c).0 (read_frame-key c)
        (read_frame-shorter c)

  -- With more fuel than answers to come the loop ends, and it ends with a broken channel.
  serve-EndsBroken :
      (fuel n : ℕ) (c : Conn) → length c.inbox < fuel → EndsBroken c (serve dialer fuel n c)
  unfolding serve
  serve-EndsBroken zero n c h = elim h [ ]
  serve-EndsBroken (suc fuel) n c h =
      go (round dialer n c) (round-RoundOf n c) (serve-EndsBroken fuel (suc n))
    where
      go :
          (r : Round)
          → RoundOf c r
          → ((d : Conn) → length d.inbox < fuel → EndsBroken d (serve dialer fuel (suc n) d))
          → EndsBroken c (elim r [ breaks d ↦ some d | goes_on d ↦ serve dialer fuel (suc n) d ])
      go (breaks d) (e, k) ih = (d, e.0, refl, e.1, k)
      go (goes_on d) (l, k) ih = let (x, e, p, q, y) = ih d (omega arith) in (x, e, p, q, y ∙ k)

  -- ProcConn serves a channel to its end: with more fuel than the raw connection has answers, it
  -- returns, the raw connection is closed, and the set of channels is as before, if the address of
  -- the new channel is not in it and every transfer keeps the channel object and adds nothing to
  -- what the raw connection will still deliver.
  pub proc_conn-ends :
      (fuel : ℕ) (s : Server) (key now : ℕ) (raw : Raw)
      → length raw.incoming < fuel
      → elem key s.conns ≡ false
      → (c : Conn) × (proc_conn dialer fuel s key now raw ≡ some (s, c)) × (c.raw_closed ≡ true)
  unfolding proc_conn finish new_channel_conn
  proc_conn-ends fuel s key now raw h fresh =
      let (d, e, p, q, k) = serve-EndsBroken fuel 0 (new_channel_conn key now raw) h in
      let m = close-marked d e q in
      (
        close d,
        rw (p, finish)
            (ap (λ l. some (record s { conns = l }, close d))
              (ap (λ j. remove j (add key s.conns)) k ∙ remove-add key s.conns fresh)),
        m.1,
      )
