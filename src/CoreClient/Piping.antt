-- ===== src/CoreClient/Piping.antt =====
-- What calls PipeConn or does the same: httpDial of core/cs.go, for the client's own requests, and
-- procForward of cs_client.go, for the connections of a forward.
use gocs.Prelude.{ℕ, ◌≡◌, ap, sym, subst, List, [], ◌∷◌, ◌++◌, Bytes, codes, eqb_iff, arith}
use gocs.Prelude.Keys.{elem}
use gocs.Channel.{Conn}
use gocs.CoreClient.{
  Client, Dialed, panics, refused, dialed, dial_piper, close_piper, pipe_conn, store,
}
use gocs.CoreClient.Sharing.{Shared, Keeps, begun, kept, IsExclusive, Keeps-IsExclusive}
use gocs.CoreClient.Dialing.{
  DialedFrom, dial_piper-DialedFrom, close_piper-Keeps, remove_head, use_held,
}

module _ (copy : Conn → Conn) (env : ℕ → ℕ × ℕ) (now : ℕ) where
  -- procForward, less the connection that was accepted, which is closed on every path.
  unfoldable pub proc_forward : Bytes → Client → Dialed × Client
  unfolding dial_piper close_piper
  proc_forward remote c =
      let (r, c') = dial_piper env now remote c in
      elim r [
        | panics ↦ (panics, c')
        | refused e ↦ (refused e, c')
        | dialed k ↦ (dialed k, close_piper now k (store k (copy (c'.heap k)) c'))
      ]

  -- The goroutine of httpDial.
  unfoldable pub http_dial : Bytes → Bytes → Client → Dialed × Client
  unfolding pipe_conn
  http_dial network addr c = pipe_conn copy env now (network ++ (codes "://" ++ addr)) c

-- A connection that a client serves, with what its transfer does to a channel, the clock, and the
-- choices of the maps: one that its proxy servers pipe, one of its own requests, or one of a forward.
pub data Work : Type 0 where
  pipes : Bytes → Work
  requests : Bytes → Bytes → Work
  forwards : Bytes → Work

pub record Job : Type 0 where
  pub copy : Conn → Conn
  pub env : ℕ → ℕ × ℕ
  pub now : ℕ
  pub work : Work

pub run_work : Work → Job → Client → Dialed × Client
run_work (pipes target) j c = pipe_conn j.copy j.env j.now target c
run_work (requests network addr) j c = http_dial j.copy j.env j.now network addr c
run_work (forwards remote) j c = proc_forward j.copy j.env j.now remote c

-- The client behind these connections, one after the other.
pub run_jobs : List Job → Client → Client
unfolding run_work
run_jobs [] c = c
run_jobs (j ∷ js) c = run_jobs js (run_work j.work j c).1

Keeps-trans : {u v w : Shared} → Keeps u v → Keeps v w → Keeps u w
Keeps-trans r begun = r
Keeps-trans r (kept s x k) = kept (Keeps-trans r s) x k

module _ (copy : Conn → Conn) (env : ℕ → ℕ × ℕ) (now : ℕ) where
  abbrev after_dial : Dialed × Client → Dialed × Client
  after_dial (panics, c) = (panics, c)
  after_dial (refused e, c) = (refused e, c)
  after_dial (dialed k, c) = (dialed k, close_piper now k (store k (copy (c.heap k)) c))

  after_dial-Keeps :
      (target : Bytes) (u : Shared) (r : Dialed) (c : Client)
      → IsExclusive u
      → DialedFrom u u.held target (r, c)
      → Keeps u (record { client = (after_dial (r, c)).1; held = u.held })
  unfolding elem
  after_dial-Keeps target u panics c x d = d
  after_dial-Keeps target u (refused e) c x d = d
  after_dial-Keeps target u (dialed k) c x (d, using) =
      let v : Shared = record { client = store k (copy (c.heap k)) c; held = k ∷ u.held } in
      let copied : Keeps u v = use_held u u.held k c (copy (c.heap k)) d in
      let exclusive = Keeps-IsExclusive x copied in
      subst (λ held. Keeps u (record { client = close_piper now k v.client; held = held }))
        (remove_head k u.held exclusive.once.0)
        (Keeps-trans copied (close_piper-Keeps now k v exclusive (ground (arith, eqb_iff k k))))

  pipe_conn-after_dial :
      (target : Bytes) (c : Client)
      → pipe_conn copy env now target c ≡ after_dial (dial_piper env now target c)
  unfolding pipe_conn
  pipe_conn-after_dial target c = ground arith

  proc_forward-after_dial :
      (target : Bytes) (c : Client)
      → proc_forward copy env now target c ≡ after_dial (dial_piper env now target c)
  unfolding proc_forward
  proc_forward-after_dial target c = ground arith

  piped-Keeps :
      (target : Bytes) (u : Shared) (d : Client)
      → IsExclusive u
      → d ≡ (after_dial (dial_piper env now target u.client)).1
      → Keeps u (record { client = d; held = u.held })
  piped-Keeps target u d x e =
      let p = dial_piper env now target u.client in
      subst (λ (c : Client). Keeps u (record { client = c; held = u.held })) (sym e)
        (after_dial-Keeps target u p.0 p.1 x (dial_piper-DialedFrom env now target u x))

run_work-Keeps :
    (w : Work) (j : Job) (u : Shared)
    → IsExclusive u
    → Keeps u (record { client = (run_work w j u.client).1; held = u.held })
unfolding run_work http_dial
run_work-Keeps (pipes target) j u x =
    piped-Keeps j.copy j.env j.now target u (pipe_conn j.copy j.env j.now target u.client).1 x
      (ap (λ (r : Dialed × Client). r.1) (pipe_conn-after_dial j.copy j.env j.now target u.client))
run_work-Keeps (requests network addr) j u x =
    let target = network ++ (codes "://" ++ addr) in
    piped-Keeps j.copy j.env j.now target u (pipe_conn j.copy j.env j.now target u.client).1 x
      (ap (λ (r : Dialed × Client). r.1) (pipe_conn-after_dial j.copy j.env j.now target u.client))
run_work-Keeps (forwards remote) j u x =
    piped-Keeps j.copy j.env j.now remote u (proc_forward j.copy j.env j.now remote u.client).1 x (
      ap (λ (r : Dialed × Client). r.1)
        (proc_forward-after_dial j.copy j.env j.now remote u.client))

-- Connections give back what they take: from a state where nobody shares a channel, any connections
-- that a client serves one after the other, for its proxy servers, its own requests or its forwards,
-- whatever their transfers do and whether their dials succeed or not, are a sequence of the steps of
-- the pool, none of which drops a channel, that ends with exactly the channels held that were held
-- before, so that every channel they took was closed or is back in the pool, and with nobody sharing
-- one.
pub run_jobs-Keeps :
    (js : List Job) (u : Shared)
    → IsExclusive u
    → Keeps u (record { client = run_jobs js u.client; held = u.held })
      × IsExclusive (record { client = run_jobs js u.client; held = u.held })
unfolding run_jobs
run_jobs-Keeps [] u x = (begun, x)
run_jobs-Keeps (j ∷ js) u x =
    let first = run_work-Keeps j.work j u x in
    let (rest, exclusive) =
      run_jobs-Keeps js (record { client = (run_work j.work j u.client).1; held = u.held })
        (Keeps-IsExclusive x first) in
    (Keeps-trans first rest, exclusive)
