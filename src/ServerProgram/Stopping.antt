-- ===== src/ServerProgram/Stopping.antt =====
-- What Stop closes, behind restarts that are timely and behind one that is not.
use gocs.Prelude.{
  ℕ, ◌≡◌, inl, inr, refl, Bool, true, false, Option, none, some, List, [], ◌∷◌, Bytes, nat_eq,
  bytes_eq, eqb_iff, arith, subst, sym, ap, ◌∙◌,
}
use gocs.Prelude.Dict.{Dict, lookup}
use gocs.Prelude.Keys.{elem}
use gocs.Errors.{Error}
use gocs.Ports.{parse_listen_addr}
use gocs.ServerProgram.{
  UserFiles, Server, ServerConf, HttpServer, Run, new_server, spawn, spawn_all, listen_on,
  http_start, https_start, start_http, start_https, pick_restart, respawn, runs_of, stop, start,
  Step, begins, ends, picks, respawns, stops,
}
use gocs.ServerProgram.Counting.{
  configured, IsCounted, new_server-IsCounted, start-IsCounted, end_run-IsCounted, Step-IsCounted,
  same_some,
}
use gocs.ServerProgram.Owning.{
  IsTimely, TimelyReach, timely_here, timely_step, IsOnce, IsOwned, begin_run-IsOnce,
  begin_run-IsOwned, end_run-IsOnce, end_run-IsOwned, spawn-IsOnce,
}

runs_of-old :
    (id : ℕ) (m : Dict Bytes HttpServer) (ids : List ℕ)
    → elem id ids ≡ true
    → elem id (runs_of m ids) ≡ true
unfolding runs_of elem
runs_of-old id [] ids h = h
runs_of-old id ((a, srv) ∷ m) ids h = ground (arith, runs_of-old id m ids)

runs_of-entry :
    (addr : Bytes) (srv : HttpServer) (m : Dict Bytes HttpServer) (ids : List ℕ)
    → lookup addr m ≡ some srv
    → elem srv.run (runs_of m ids) ≡ true
unfolding runs_of elem
runs_of-entry addr srv [] ids h = absurd (ground arith)
runs_of-entry addr srv ((a, x) ∷ m) ids h =
    ground (arith, runs_of-entry addr srv m ids, eqb_iff srv.run srv.run)

-- Every running listener was closed.
abbrev pub IsClosed : Server → Type 0
IsClosed s = (id : ℕ) (run : Run) → lookup id s.running ≡ some run → elem id s.closed ≡ true

stop-IsClosed : (s : Server) → IsOwned s → IsClosed (stop s)
unfolding stop
stop-IsClosed s w id run h = elim (w id run h) [
  | inl c ↦ runs_of-old id s.servers s.closed c
  | inr (srv, y, z) ↦ ground (arith, runs_of-entry run.addr srv s.servers s.closed y)
]

-- What holds between the steps of timely restarts.
abbrev IsOrderly : Server → Type 0
IsOrderly s = IsCounted s × IsOnce s × IsOwned s

-- What a restart takes up to its sleep.
pick_restart-keeps :
    (now : ℕ) (s t : Server)
    → pick_restart now s ≡ some t
    → (t.pending ≡ s.pending) × (t.running ≡ s.running) × (t.servers ≡ s.servers)
unfolding pick_restart
pick_restart-keeps now s t e = ground arith

pick_restart-closed :
    (now id : ℕ) (s t : Server)
    → pick_restart now s ≡ some t
    → elem id s.closed ≡ true
    → elem id t.closed ≡ true
unfolding pick_restart elem
pick_restart-closed now id s t e h = ground arith

picked-IsOrderly :
    (now : ℕ) (s t : Server)
    → pick_restart now s ≡ some t
    → IsOnce s × IsOwned s
    → IsOnce t × IsOwned t
picked-IsOrderly now s t e (o, w) =
    let (p, r, m) = pick_restart-keeps now s t e in
    (
      record {
        pending_once = rw p o.pending_once;
        running_once = rw r o.running_once;
        between = rw (p, r) o.between;
      },
      λ id run h. elim (w id run (rw r at h)) [
        | inl c ↦ inl (pick_restart-closed now id s t e c)
        | inr (srv, y, z) ↦ inr (srv, ap (lookup run.addr) m ∙ y, z)
      ],
    )

Step-IsOrderly : {s t : Server} (x : Step s t) → IsTimely x → IsOrderly s → IsOrderly t
unfolding IsTimely respawn stop
Step-IsOrderly {s} (begins now id run h) t (i, o, w) = (
  Step-IsCounted (begins now id run h) i,
  begin_run-IsOnce now id run s o h,
  begin_run-IsOwned now id run s o h w,
)
Step-IsOrderly {s} {t} (ends id run h e) x (i, o, w) =
    let (u, p, n, a, b, c, d, k) = end_run-IsCounted id run s i h in
    subst IsOrderly (same_some u t (sym p ∙ e))
      (k, end_run-IsOnce id s u o a c, end_run-IsOwned id run s u o h c d b w)
Step-IsOrderly {s} {t} (picks now r e) x (i, o, w) =
    let (p, q) = picked-IsOrderly now s t e (o, w) in (Step-IsCounted (picks now r e) i, p, q)
Step-IsOrderly {s} (respawns addr r) f (i, o, w) = (
  Step-IsCounted (respawns addr r) i,
  spawn-IsOnce true addr (record s { restarting = none }) f
      (record {
        pending_once = o.pending_once;
        running_once = o.running_once;
        between = o.between;
      }),
  w,
)
Step-IsOrderly {s} stops x (i, o, w) = (
  Step-IsCounted stops i,
  record { pending_once = o.pending_once; running_once = o.running_once; between = o.between },
  λ id run h. inl (stop-IsClosed s w id run h),
)

TimelyReach-IsOrderly : {s t : Server} → TimelyReach s t → IsOrderly s → IsOrderly t
TimelyReach-IsOrderly timely_here i = i
TimelyReach-IsOrderly (timely_step r x t) i = Step-IsOrderly x t (TimelyReach-IsOrderly r i)

spawn_all-running :
    (tls : Bool) (addrs : List Bytes) (s : Server) → (spawn_all tls addrs s).running ≡ s.running
unfolding spawn_all
spawn_all-running tls [] s = refl
spawn_all-running tls (addr ∷ addrs) s = spawn_all-running tls addrs (spawn tls addr s)

listen_on-running :
    (tls : Bool) (r : List Bytes × Option Error) (s : Server)
    → (listen_on tls r s).1.running ≡ s.running
listen_on-running tls (addrs, some e) s = refl
listen_on-running tls (addrs, none) s = spawn_all-running tls addrs s

start_http-running : (s : Server) → (start_http s).running ≡ s.running
unfolding http_start
start_http-running s =
    ground (arith, listen_on-running false (parse_listen_addr s.conf.http_addr) s)

start_https-running : (s : Server) → (start_https s).running ≡ s.running
unfolding https_start
start_https-running s =
    ground (arith, listen_on-running true (parse_listen_addr s.conf.https_addr) s)

start-running : (read : UserFiles) (s : Server) → (start read s).1.running ≡ s.running
unfolding start
start-running read s =
    let c = configured read s in
    ground (arith, start_https-running c, start_http-running c, start_https-running (start_http c))

stop-running : (s : Server) → (stop s).running ≡ s.running
unfolding stop
stop-running s = refl

pub stop-keeps : (s : Server) → ((stop s).pending ≡ s.pending) × ((stop s).waiting ≡ s.waiting)
unfolding stop
stop-keeps s = (refl, refl)

new_server-running : (conf : ServerConf) → (new_server conf).running ≡ []
unfolding new_server
new_server-running conf = refl

-- Behind timely restarts, the server that Stop leaves has its listeners counted, and closed.
pub stop-IsCounted :
    (conf : ServerConf) (read : UserFiles) (s : Server)
    → IsOnce (start read (new_server conf)).1
    → TimelyReach (start read (new_server conf)).1 s
    → IsCounted (stop s) × IsClosed (stop s)
stop-IsCounted conf read s o r =
    let (i, p, w) =
      TimelyReach-IsOrderly r
        (start-IsCounted read (new_server conf) (new_server-IsCounted conf), o, started) in
    (Step-IsCounted stops i, stop-IsClosed s w)
  where
    nobody : (start read (new_server conf)).1.running ≡ []
    nobody = start-running read (new_server conf) ∙ new_server-running conf

    started : IsOwned (start read (new_server conf)).1
    started j q k = absurd (ground (arith, ap (lookup j) nobody))

-- If no two listeners that the Start of a new server leaves are for the same address, and every
-- restart, one at a time, starts the new listener when the old one has ended, then Stop closes every
-- listener that is running, whatever began, ended, was restarted or stopped before.
pub stop-closes_running :
    (conf : ServerConf) (read : UserFiles) (s : Server) (id : ℕ) (run : Run)
    → IsOnce (start read (new_server conf)).1
    → TimelyReach (start read (new_server conf)).1 s
    → lookup id s.running ≡ some run
    → elem id (stop s).closed ≡ true
stop-closes_running conf read s id run o r h =
    (stop-IsCounted conf read s o r).1 id run (ap (lookup id) (stop-running s) ∙ h)
