-- ===== src/Command/Serving.antt =====
-- The server of the command, from its start to the signal that ends it.
use gocs.Prelude.{
  ℕ, ◌+◌, ◌≡◌, ◌⊎◌, inl, inr, refl, true, none, some, [], codes, arith, subst, ◌∙◌, nat_eq,
  Option-cases,
}
use gocs.Prelude.Dict.{lookup}
use gocs.Prelude.Keys.{elem}
use gocs.Errors.{errorf, Result, ok, err}
use gocs.Udpgw.Timer.{Timer, idle, start_timeout, call_stop, Moves}
use gocs.Udpgw.Timer.Stopping.{Goes, stop_timeout-returns}
use gocs.ServerProgram
use gocs.ServerProgram.{UserFiles, ServerConf, Server, Run, new_server, end_run}
use gocs.ServerProgram.Owning.{IsOnce, TimelyReach}
use gocs.ServerProgram.Stopping.{stop-IsCounted, stop-keeps}
use gocs.ServerProgram.Draining.{Ends, Ends-progress}
use gocs.ClientProgram.{returned, panicked}
use gocs.Command.{
  ServerGlobals, no_server, start_server, stop_server, System, Flags, main, waits_for_server,
}

start_server-read :
    (read : UserFiles) (r : Result ServerConf) (g : ServerGlobals)
    → start_server read r no_server ≡ (returned none, g)
    → (conf : ServerConf) × (t : Timer) × (r ≡ ok conf)
      × (start_timeout idle ≡ some t)
      × (g ≡ record { server = some (ServerProgram.start read (new_server conf)).1; timer = t })
unfolding start_server
start_server-read read (err e) g h = absurd (ground arith)
start_server-read read (ok conf) g h = elim (Option-cases (start_timeout idle)) [
  | inl p ↦ absurd (ground arith)
  | inr (t, p) ↦ (conf, t, refl, p, ground (arith, p))
]

main-server :
    (sys : System) (flags : Flags) (g : ServerGlobals)
    → main sys flags ≡ waits_for_server g
    → start_server sys.user_files (sys.server_conf flags.conf) no_server ≡ (returned none, g)
unfolding main
main-server sys flags g h = ground arith

-- A server whose main waits for it, behind the signal that ends it: with each listener that ends its
-- wait group comes nearer to zero, and unless it is there a closed listener can end next; the timer
-- goes on to where it was declared, and no server is held.
abbrev pub Drains : ServerGlobals → Server → ℕ → Server → ℕ → Timer → Type 0
Drains h s n u m v =
    (u.waiting + n ≡ s.waiting)
    × ((u.waiting ≡ 0)
        ⊎ ((id : ℕ) × (run : Run) × (t : Server) × (lookup id u.running ≡ some run)
            × (elem id u.closed ≡ true)
            × (end_run id run u ≡ some t)))
    × Goes m v
    × (h.server ≡ none)

-- The signal ends the command that runs as a server. Where main has started a server with at most
-- one listener for an address and waits for it, and every restart since, one at a time, was timely
-- and no listener is still to begin, the StopServer of the signal's handler leaves no server; each
-- listener that ends behind it takes one off the wait group, and unless that is at zero, where main
-- returns, there is a closed listener that can end next; and its StopTimeout returns behind its
-- fourth move, with the timer as it was declared, and can move until then.
pub main-stop_server :
    (sys : System) (flags : Flags) (g : ServerGlobals) (first s u : Server) (n m : ℕ) (v : Timer)
    → main sys flags ≡ waits_for_server g
    → g.server ≡ some first
    → IsOnce first
    → TimelyReach first s
    → s.pending ≡ []
    → Ends (ServerProgram.stop s) n u
    → Moves (stop_server (record g { server = some s })).1.timer m v
    → ((stop_server (record g { server = some s })).0 ≡ some (ServerProgram.stop s))
      × Drains (stop_server (record g { server = some s })).1 s n u m v
unfolding stop_server
main-stop_server sys flags g first s u n m v w f o r p es ms =
    let (conf, t, c, e, k) =
      start_server-read sys.user_files (sys.server_conf flags.conf) g (main-server sys flags g w) in
    let same : first ≡ (ServerProgram.start sys.user_files (new_server conf)).1 =
      ground (arith, k, f) in
    let (counted, closed) =
      stop-IsCounted conf sys.user_files s (subst IsOnce same o)
        (subst (λ x. TimelyReach x s) same r) in
    let (pending, waiting) = stop-keeps s in
    let (less, next) = Ends-progress (ServerProgram.stop s) u n (counted, pending ∙ p, closed) es in
    let goes =
      stop_timeout-returns m t v e
        (subst (λ (x : ServerGlobals). Moves (call_stop x.timer) m v) k ms) in
    (refl, (less ∙ waiting, next, goes, refl))

-- A StartServer that fails for want of an address keeps the timer of the gateways: it returns that
-- error, and behind it a StartServer with any configuration that can be read panics.
pub start_server-again :
    (read : UserFiles) (empty conf : ServerConf)
    → empty.http_addr ≡ []
    → empty.https_addr ≡ []
    → ((start_server read (ok empty) no_server).0
        ≡ returned (some (errorf (codes "http_addr and https_addr is empty"))))
      × ((start_server read (ok conf) (start_server read (ok empty) no_server).1).0 ≡ panicked)
unfolding start_server ServerProgram.start start_timeout new_server
start_server-again read empty conf h s = rw (h, s, ServerProgram.start) (refl, refl)
