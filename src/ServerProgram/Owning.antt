-- ===== src/ServerProgram/Owning.antt =====
-- Which listeners Stop closes: those that are running, if each address has one listener at a time.
use gocs.Prelude.{
  ℕ, ◌≡◌, ◌≢◌, ◌⊎◌, inl, inr, Bool, true, some, ◌∷◌, Bytes, nat_eq, bytes_eq, beq_bytes_iff,
  eqb_iff, arith,
}
use gocs.Prelude.Dict.{Dict, lookup, delete, lookup-insert, lookup-delete}
use gocs.Prelude.Keys.{elem}
use gocs.ServerProgram.{
  Server, HttpServer, Run, spawn, begin_run, Step, begins, ends, picks, respawns, stops,
}

-- No listener is pending or running for the address.
abbrev pub IsFree : Bytes → Server → Type 0
IsFree addr s =
    ((id : ℕ) (run : Run) → lookup id s.pending ≡ some run → run.addr ≢ addr)
    × ((id : ℕ) (run : Run) → lookup id s.running ≡ some run → run.addr ≢ addr)

-- A restart is timely if the listener that it replaces has ended when the new one is started.
unfoldable pub IsTimely : {s t : Server} → Step s t → Type 0
IsTimely (begins now id run h) = Unit
IsTimely (ends id run h e) = Unit
IsTimely (picks now r e) = Unit
IsTimely {s} (respawns addr r) = IsFree addr s
IsTimely stops = Unit

pub data TimelyReach (s : Server) : Server → Type 0 where
  timely_here : TimelyReach s s
  timely_step : {t u : Server} → TimelyReach s t → (x : Step t u) → IsTimely x → TimelyReach s u

-- Each address has at most one listener, pending or running.
pub record IsOnce (s : Server) : Type 0 where
  pub pending_once :
      (i j : ℕ) (r q : Run)
      → lookup i s.pending ≡ some r
      → lookup j s.pending ≡ some q
      → r.addr ≡ q.addr
      → i ≡ j
  pub running_once :
      (i j : ℕ) (r q : Run)
      → lookup i s.running ≡ some r
      → lookup j s.running ≡ some q
      → r.addr ≡ q.addr
      → i ≡ j
  pub between :
      (i j : ℕ) (r q : Run)
      → lookup i s.pending ≡ some r
      → lookup j s.running ≡ some q
      → r.addr ≢ q.addr

-- A running listener was closed, or Stop finds it under its address.
abbrev pub IsOwned : Server → Type 0
IsOwned s =
    (id : ℕ) (run : Run)
    → lookup id s.running ≡ some run
    → (elem id s.closed ≡ true)
      ⊎ ((srv : HttpServer) × (lookup run.addr s.servers ≡ some srv) × (srv.run ≡ id))

-- A listener that runs behind a begin is the new one, or it was running before.
lookup-begun :
    (id i : ℕ) (run r : Run) (m : Dict ℕ Run)
    → lookup i ((id, run) ∷ m) ≡ some r
    → ((id ≡ i) × (run ≡ r)) ⊎ (lookup i m ≡ some r)
lookup-begun id i run r m h = ground (arith, eqb_iff id i)

lookup-kept :
    (id i : ℕ) (r : Run) (m : Dict ℕ Run)
    → lookup i (delete id m) ≡ some r
    → (lookup i m ≡ some r) × (id ≢ i)
lookup-kept id i r m h = ground (arith, lookup-delete id i m, eqb_iff id i)

pub begin_run-IsOnce :
    (now id : ℕ) (run : Run) (s : Server)
    → IsOnce s
    → lookup id s.pending ≡ some run
    → IsOnce (begin_run now id run s)
unfolding begin_run
begin_run-IsOnce now id run s o h = record {
  pending_once = λ i j r q a b.
      o.pending_once i j r q (lookup-kept id i r s.pending a).0 (lookup-kept id j q s.pending b).0;
  running_once = λ i j r q a b e. elim (lookup-begun id i run r s.running a) [
    | inl (x, y) ↦ elim (lookup-begun id j run q s.running b) [
      | inl (v, w) ↦ ground arith
      | inr w ↦ absurd (ground (arith, o.between id j run q h w))
    ]
    | inr x ↦ elim (lookup-begun id j run q s.running b) [
      | inl (v, w) ↦ absurd (ground (arith, o.between id i run r h x))
      | inr w ↦ o.running_once i j r q x w e
    ]
  ];
  between = λ i j r q a b e.
      let (x, y) = lookup-kept id i r s.pending a in
      elim (lookup-begun id j run q s.running b) [
        | inl (v, w) ↦ absurd (ground (arith, o.pending_once id i run r h x))
        | inr w ↦ o.between i j r q x w e
      ];
}

pub begin_run-IsOwned :
    (now id : ℕ) (run : Run) (s : Server)
    → IsOnce s
    → lookup id s.pending ≡ some run
    → IsOwned s
    → IsOwned (begin_run now id run s)
unfolding begin_run
begin_run-IsOwned now id run s o h w j r k = elim (lookup-begun id j run r s.running k) [
  | inl (v, x) ↦ inr (
    record { run = id; start_time = now },
    ground (
      arith,
      lookup-insert run.addr r.addr (record { run = id; start_time = now }) s.servers,
      beq_bytes_iff run.addr r.addr,
    ),
    v,
  )
  | inr x ↦ elim (w j r x) [
    | inl c ↦ inl c
    | inr (srv, y, z) ↦ inr (
      srv,
      ground (
        arith,
        lookup-insert run.addr r.addr (record { run = id; start_time = now }) s.servers,
        beq_bytes_iff run.addr r.addr,
        o.between id j run r h x,
      ),
      z,
    )
  ]
]

pub end_run-IsOnce :
    (id : ℕ) (s t : Server)
    → IsOnce s
    → t.pending ≡ s.pending
    → t.running ≡ delete id s.running
    → IsOnce t
end_run-IsOnce id s t o p e = record {
  pending_once = rw p o.pending_once;
  running_once = rw e (λ i j r q a b.
      o.running_once i j r q (lookup-kept id i r s.running a).0 (lookup-kept id j q s.running b).0);
  between = rw (p, e) (λ i j r q a b. o.between i j r q a (lookup-kept id j q s.running b).0);
}

pub end_run-IsOwned :
    (id : ℕ) (run : Run) (s t : Server)
    → IsOnce s
    → lookup id s.running ≡ some run
    → t.running ≡ delete id s.running
    → t.servers ≡ delete run.addr s.servers
    → t.closed ≡ s.closed
    → IsOwned s
    → IsOwned t
end_run-IsOwned id run s t o h e v c w j r k =
    let (x, y) = lookup-kept id j r s.running (rw e at k) in
    elim (w j r x) [
      | inl d ↦ inl (ground (arith, c))
      | inr (srv, u, z) ↦ inr (
        srv,
        ground (
          arith,
          v,
          lookup-delete run.addr r.addr s.servers,
          beq_bytes_iff run.addr r.addr,
          o.running_once id j run r h x,
        ),
        z,
      )
    ]

pub spawn-IsOnce :
    (tls : Bool) (addr : Bytes) (s : Server) → IsFree addr s → IsOnce s → IsOnce (spawn tls addr s)
spawn-IsOnce tls addr s f o = record {
  pending_once = λ i j r q a b e. elim (lookup-begun s.next i fresh r s.pending a) [
    | inl (x, y) ↦ elim (lookup-begun s.next j fresh q s.pending b) [
      | inl (v, w) ↦ ground arith
      | inr w ↦ absurd (ground (arith, f.0 j q w))
    ]
    | inr x ↦ elim (lookup-begun s.next j fresh q s.pending b) [
      | inl (v, w) ↦ absurd (ground (arith, f.0 i r x))
      | inr w ↦ o.pending_once i j r q x w e
    ]
  ];
  running_once = o.running_once;
  between = λ i j r q a b e. elim (lookup-begun s.next i fresh r s.pending a) [
    | inl (x, y) ↦ absurd (ground (arith, f.1 j q b))
    | inr x ↦ o.between i j r q x b e
  ];
}
  where
    fresh : Run
    fresh = record { addr = addr; tls = tls }
