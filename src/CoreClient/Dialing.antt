-- ===== src/CoreClient/Dialing.antt =====
-- DialBack, DialConn, DialPiper and the piper's Close are made of the steps of CoreClient/Sharing:
-- they end with the channel held, or with no channel.
use gocs.Prelude.{
  ℕ, zero, suc, ◌≡◌, inl, inr, refl, sym, ap, ◌∙◌, true, false, Option, none, some, List, [], ◌∷◌,
  Bytes, codes, eqb_iff, arith, Bool-cases, ◌==◌, bytes_eq,
}
use gocs.Prelude.Keys.{elem, remove, remove-none}
use gocs.Errors.{Error, Result, ok, err}
use gocs.Channel.{Frame, Conn, read_frame, write_command, close, cmd_conn_dial, raw_write}
use gocs.Channel.Protocol.{read_frame-keeps}
use gocs.CoreClient.Sharing.{
  Shared, Keeps, begun, kept, pulls, pull_fails, uses, gives_back, closes, IsExclusive,
  Keeps-IsExclusive, pull_conn-unused,
}
use gocs.CoreClient.{
  Client, store, pull_conn, push_conn, Attempt, failed, connected, after_back, after_send,
  after_pull, attempt, dial_loop, dial_back, Dialed, dialed, refused, panics, after_dial, dial_conn,
  start, dial_piper, close_piper,
}

-- From u, a try ends with its channel held and outside a session, or with what was held before.
abbrev pub TryFrom : Shared → List ℕ → Attempt × Client → Type 0
TryFrom u held (failed e, c) = Keeps u (record { client = c; held = held })
TryFrom u held (connected k f, c) =
    Keeps u (record { client = c; held = k ∷ held }) × ((c.heap k).using ≡ [])

module _ (u : Shared) (held : List ℕ) where
  -- One more use of the channel that was pulled.
  pub use_held :
      (k : ℕ) (c : Client) (conn : Conn)
      → Keeps u (record { client = c; held = k ∷ held })
      → Keeps u (record { client = store k conn c; held = k ∷ held })
  unfolding elem
  use_held k c conn r = kept r (uses k conn (ground (arith, eqb_iff k k)) refl) tt

  close_held :
      (k : ℕ) (c : Client) (conn : Conn)
      → elem k held ≡ false
      → Keeps u (record { client = c; held = k ∷ held })
      → Keeps u (record { client = store k (close conn) c; held = held })
  unfolding remove elem
  close_held k c conn free r =
      kept r
        (closes k conn (ground (arith, eqb_iff k k)) (
          ap (λ l. record { client = store k (close conn) c; held = l })
            (ground (arith, remove-none k held free, eqb_iff k k))))
        tt

  after_back-TryFrom :
      (k : ℕ) (c : Client) (r : Result Frame) (conn : Conn)
      → elem k held ≡ false
      → conn.using ≡ []
      → Keeps u (record { client = c; held = k ∷ held })
      → TryFrom u held (after_back k c (r, conn))
  after_back-TryFrom k c (err e) conn free out r = close_held k c conn free r
  after_back-TryFrom k c (ok f) conn free out r = (use_held k c conn r, ground (arith, eqb_iff k k))

  after_send-TryFrom :
      (k : ℕ) (c : Client) (x : Option Error) (conn : Conn)
      → elem k held ≡ false
      → conn.using ≡ []
      → Keeps u (record { client = c; held = k ∷ held })
      → TryFrom u held (after_send k c (x, conn))
  after_send-TryFrom k c (some e) conn free out r = close_held k c conn free r
  after_send-TryFrom k c none conn free out r =
      after_back-TryFrom k c (read_frame conn).0 (read_frame conn).1 free
        (ap (λ (y : Conn). y.using) (read_frame-keeps conn) ∙ out) r

write_command-using : (cmd : ℕ) (b : Bytes) (c : Conn) → (write_command cmd b c).1.using ≡ c.using
unfolding write_command raw_write
write_command-using cmd b c = ground arith

attempt-TryFrom :
    (now pick : ℕ) (target : Bytes) (start u : Shared)
    → IsExclusive start
    → Keeps start u
    → TryFrom start u.held (attempt now pick target u.client)
unfolding attempt
attempt-TryFrom now pick target start u x r =
    go (pull_conn now pick u.client).0 (pull_conn now pick u.client).1 refl
  where
    go :
        (a : Result ℕ) (c : Client)
        → pull_conn now pick u.client ≡ (a, c)
        → TryFrom start u.held (after_pull target (a, c))
    go (err e) c p = kept r (pull_fails now pick e c p refl) tt
    go (ok k) c p =
        let s = kept r (pulls now pick k c p refl) tt in
        let w = write_command cmd_conn_dial target (c.heap k) in
        after_send-TryFrom start u.held k c w.0 w.1 (Keeps-IsExclusive x s).once.0
          (write_command-using cmd_conn_dial target (c.heap k)
            ∙ pull_conn-unused now pick k u.client c p (Keeps-IsExclusive x r).clean)
          s

abbrev pub TriesFrom : Shared → List ℕ → Option Attempt × Client → Type 0
TriesFrom u held (none, c) = Keeps u (record { client = c; held = held })
TriesFrom u held (some a, c) = TryFrom u held (a, c)

-- The last try failed, if there was one.
abbrev AllFailed : Option Attempt → Type 0
AllFailed none = Unit
AllFailed (some (failed e)) = Unit
AllFailed (some (connected k f)) = ⊥

dial_loop-TriesFrom :
    (env : ℕ → ℕ × ℕ) (target : Bytes) (start u : Shared) (left i : ℕ) (last : Option Attempt)
    → IsExclusive start
    → AllFailed last
    → Keeps start u
    → TriesFrom start u.held (dial_loop env target left i last u.client)
unfolding dial_loop
dial_loop-TriesFrom env target start u zero i none x l r = r
dial_loop-TriesFrom env target start u zero i (some (failed e)) x l r = r
dial_loop-TriesFrom env target start u zero i (some (connected k f)) x l r = absurd l
dial_loop-TriesFrom env target start u (suc left) i last x l r =
    go (attempt (env i).0 (env i).1 target u.client).0
      (attempt (env i).0 (env i).1 target u.client).1
      (attempt-TryFrom (env i).0 (env i).1 target start u x r)
      (λ c e s.
        dial_loop-TriesFrom env target start (record { client = c; held = u.held }) left (suc i)
          (some (failed e)) x tt s)
  where
    go :
        (a : Attempt) (c : Client)
        → TryFrom start u.held (a, c)
        → ((d : Client) (e : Error)
            → Keeps start (record { client = d; held = u.held })
            → TriesFrom start u.held (dial_loop env target left (suc i) (some (failed e)) d))
        → TriesFrom start u.held (elim a [
          | connected k back ↦ (some (connected k back), c)
          | failed e ↦ dial_loop env target left (suc i) (some (failed e)) c
        ])
    go (failed e) c t ih = ih c e t
    go (connected k f) c t ih = t

-- How a dial through the pool ends: with the channel held, in the session of this name, or with
-- what was held before. After no try at all, the code panics.
abbrev pub DialedFrom : Shared → List ℕ → Bytes → Dialed × Client → Type 0
DialedFrom u held using (panics, c) = Keeps u (record { client = c; held = held })
DialedFrom u held using (refused e, c) = Keeps u (record { client = c; held = held })
DialedFrom u held using (dialed k, c) =
    Keeps u (record { client = c; held = k ∷ held }) × ((c.heap k).using ≡ using)

pub remove_head : (k : ℕ) (held : List ℕ) → elem k held ≡ false → remove k (k ∷ held) ≡ held
unfolding remove
remove_head k held h = ground (arith, remove-none k held h, eqb_iff k k)

after_dial-DialedFrom :
    (now : ℕ) (start : Shared) (held : List ℕ) (a : Option Attempt) (c : Client)
    → IsExclusive start
    → TriesFrom start held (a, c)
    → DialedFrom start held [] (after_dial now (a, c))
unfolding elem
after_dial-DialedFrom now start held none c x t = t
after_dial-DialedFrom now start held (some (failed e)) c x t = t
after_dial-DialedFrom now start held (some (connected k f)) c x (r, out) =
    elim (Bool-cases (f.body == codes "ok")) [
      | inl yes' ↦ rw yes' (r, out)
      | inr refusal ↦ rw refusal (
          kept r
            (gives_back now k (ground (arith, eqb_iff k k)) out (
              ap (λ l. record { client = push_conn now k c; held = l })
                (sym (remove_head k held (Keeps-IsExclusive x r).once.0))))
            tt)
    ]

start-DialedFrom :
    (target : Bytes) (u : Shared) (held : List ℕ) (a : Dialed) (c : Client)
    → DialedFrom u held [] (a, c)
    → DialedFrom u held target (start target (a, c))
start-DialedFrom target u held panics c t = t
start-DialedFrom target u held (refused e) c t = t
start-DialedFrom target u held (dialed k) c (r, out) =
    (use_held u held k c (record (c.heap k) { using = target }) r, ground (arith, eqb_iff k k))

-- DialPiper, from a state where nobody shares a channel, is a sequence of steps that ends either
-- with one more channel held, whose session has the target's name, or, where it fails, with exactly
-- the channels held that were held before: the channel of a failed try is closed, and that of a
-- refused dial is given back to the pool, for no step drops one.
pub dial_piper-DialedFrom :
    (env : ℕ → ℕ × ℕ) (now : ℕ) (target : Bytes) (u : Shared)
    → IsExclusive u
    → DialedFrom u u.held target (dial_piper env now target u.client)
unfolding dial_piper dial_conn dial_back
dial_piper-DialedFrom env now target u x =
    let b = dial_loop env target u.client.try_max 0 none u.client in
    let t = dial_loop-TriesFrom env target u u u.client.try_max 0 none x tt begun in
    let a = after_dial now b in
    start-DialedFrom target u u.held a.0 a.1 (after_dial-DialedFrom now u u.held b.0 b.1 x t)

-- The Close of the piper of a held channel, from a state where nobody shares a channel, is a
-- sequence of steps behind which the channel is held no longer.
pub close_piper-Keeps :
    (now k : ℕ) (u : Shared)
    → IsExclusive u
    → elem k u.held ≡ true
    → Keeps u (record { client = close_piper now k u.client; held = remove k u.held })
unfolding close_piper
close_piper-Keeps now k u x mine = go (u.client.heap k).error
  where
    idle : Client
    idle = store k (record (u.client.heap k) { using = [] }) u.client

    go :
        (e : Option Error)
        → Keeps u (record {
          client = elim e [
            | some e ↦ store k (close (u.client.heap k)) u.client
            | none ↦ push_conn now k idle
          ];
          held = remove k u.held;
        })
    go (some e) = kept begun (closes k (u.client.heap k) mine refl) tt
    go none =
        kept (kept begun (uses k (record (u.client.heap k) { using = [] }) mine refl) tt)
          (gives_back now k mine (ground (arith, eqb_iff k k)) refl) tt
