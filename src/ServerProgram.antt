-- ===== src/ServerProgram.antt =====
-- The server program of cs_server.go: its listeners from Start over ProcRestart to Stop. Each
-- listener is a goroutine of runServer, with a number of its own: it is pending until it has entered
-- its httpServer in `servers`, and running until its ListenAndServe has returned. `closed` holds the
-- numbers whose http.Server was closed. The locks make each part one step; times are nanoseconds.
pub mod Counting
pub mod Owning
pub mod Draining
pub mod Stopping
pub mod Orphaning
pub mod Handling
use gocs.Prelude.{
  ℕ, zero, suc, ◌+◌, ◌*◌, ◌-◌, ◌^◌, ◌%◌, Bool, true, false, ◌||◌, Option, none, some, List, [], ◌∷◌,
  ◌≡◌, Bytes, codes, bytes_eq, nat_eq, if◌then◌else◌, ltb, eqb, leb, length,
}
use gocs.Prelude.Dict.{Dict, lookup, insert, delete}
use gocs.Errors.{Error, errorf}
use gocs.Files.{File, Json}
use gocs.Auth.{Auth, Users, new_auth}
use gocs.Ports.{parse_listen_addr}

-- ServerConf, less the log level and the length of the keys. `https_gen` and `timeout` are the 64
-- bits of their signed integers.
pub record ServerConf : Type 0 where
  pub http_addr : Bytes
  pub https_addr : Bytes
  pub https_gen : ℕ
  pub timeout : ℕ
  pub manager : Users
  pub user_file : Bytes
  pub dns_server : Bytes

-- A goroutine of runServer: its address, and whether it has a certificate.
pub record Run : Type 0 where
  pub addr : Bytes
  pub tls : Bool

-- An entry of `servers`: the goroutine of the server, and the server's time.
pub record HttpServer : Type 0 where
  pub run : ℕ
  pub start_time : ℕ

pub record Server : Type 0 where
  pub conf : ServerConf
  pub timeout : ℕ
  pub auth : Option Auth
  pub servers : Dict Bytes HttpServer
  pub waiting : ℕ
  pub pending : Dict ℕ Run
  pub running : Dict ℕ Run
  pub closed : List ℕ
  pub restarting : Option Bytes
  pub next : ℕ

unfoldable pub new_server : ServerConf → Server
new_server conf = record {
  conf = conf;
  timeout = 60 * 1000000000;
  auth = none;
  servers = [];
  waiting = 0;
  pending = [];
  running = [];
  closed = [];
  restarting = none;
  next = 0;
}

-- `s.waiter.Add(1)` and `go s.runServer(addr, …)`.
abbrev pub spawn : Bool → Bytes → Server → Server
spawn tls addr s = record s {
  waiting = suc s.waiting;
  pending = (s.next, record { addr = addr; tls = tls }) ∷ s.pending;
  next = suc s.next;
}

unfoldable pub spawn_all : Bool → List Bytes → Server → Server
spawn_all tls [] s = s
spawn_all tls (addr ∷ addrs) s = spawn_all tls addrs (spawn tls addr s)

-- httpStart and httpsStart behind parseListenAddr.
abbrev pub listen_on : Bool → List Bytes × Option Error → Server → Option Error × Server
listen_on tls (addrs, some e) s = (some e, s)
listen_on tls (addrs, none) s = (none, spawn_all tls addrs s)

-- httpStart
unfoldable pub http_start : Server → Option Error × Server
unfolding spawn_all
http_start s = listen_on false (parse_listen_addr s.conf.http_addr) s

-- httpsStart
unfoldable pub https_start : Server → Option Error × Server
unfolding spawn_all
https_start s = listen_on true (parse_listen_addr s.conf.https_addr) s

abbrev pub is_empty : Bytes → Bool
is_empty [] = true
is_empty (b ∷ s) = false

-- A number of milliseconds as a time.Duration, which wraps; nothing where it is not positive.
unfoldable pub duration : ℕ → Option ℕ
duration ms =
    let ns = (ms * 1000000) % 2 ^ 64 in if eqb ns 0 || leb (2 ^ 63) ns then none else some ns

-- `s.Conf.Timeout > 0`
abbrev pub timeout_of : ServerConf → ℕ → ℕ
timeout_of conf old =
    if eqb conf.timeout 0 || leb (2 ^ 63) conf.timeout
    then old
    else (conf.timeout * 1000000) % 2 ^ 64

-- The JSON library, and what a file holds, by its name in the configuration.
abbrev pub UserFiles : Type 0
UserFiles = Json Users × (Bytes → File)

-- The user file, if the configuration names one.
abbrev pub file_of : (Bytes → File) → Bytes → Option File
file_of read [] = none
file_of read (b ∷ name) = some (read (b ∷ name))

-- The listeners of Start; what httpStart and httpsStart answer is not looked at.
abbrev pub start_http : Server → Server
start_http s = if is_empty s.conf.http_addr then s else (http_start s).1

abbrev pub start_https : Server → Server
start_https s = if is_empty s.conf.https_addr then s else (https_start s).1

-- Start, less its mux and the core.Server, which are the handlers of ServerProgram/Handling, Auth and
-- CoreServer; `read` says how a user file is read, by its name in the configuration.
unfoldable pub start : UserFiles → Server → Option Error × Server
unfolding http_start https_start
start read s =
    let s' : Server = record s {
      auth = some (new_auth read.0 s.conf.manager (file_of read.1 s.conf.user_file));
      timeout = timeout_of s.conf s.timeout;
    } in
    if is_empty s.conf.http_addr
    then (if is_empty s.conf.https_addr
        then (some (errorf (codes "http_addr and https_addr is empty")), s')
        else (none, start_https s'))
    else (none, start_https (start_http s'))

-- runServer, up to its ListenAndServe.
unfoldable pub begin_run : ℕ → ℕ → Run → Server → Server
begin_run now id run s = record s {
  servers = insert (run.addr) (record { run = id; start_time = now }) s.servers;
  pending = delete id s.pending;
  running = (id, run) ∷ s.running;
}

-- `s.waiter.Done()`, which panics at zero.
abbrev pub done : Server → Option Server
done s = elim s.waiting [ zero ↦ none | suc n ↦ some (record s { waiting = n }) ]

-- runServer, behind its ListenAndServe.
unfoldable pub end_run : ℕ → Run → Server → Option Server
end_run id run s =
    done (record s { servers = delete run.addr s.servers; running = delete id s.running })

-- The time after which ProcRestart restarts a server.
abbrev pub or_minute : Option ℕ → ℕ
or_minute none = 60 * 1000000000
or_minute (some ns) = ns

-- A server that is older than the timeout; the order of the map is not specified.
unfoldable pub find_due : ℕ → ℕ → Dict Bytes HttpServer → Option (Bytes × HttpServer)
find_due timeout now [] = none
find_due timeout now ((addr, srv) ∷ m) =
    let rest = find_due timeout now m in
    if ltb timeout (now - srv.start_time) then some (addr, srv) else rest

-- ProcRestart up to its Sleep; `none` for runner.ErrNotTask.
unfoldable pub pick_restart : ℕ → Server → Option Server
unfolding find_due duration
pick_restart now s = elim (find_due (or_minute (duration s.conf.https_gen)) now s.servers) [
  | none ↦ none
  | some (addr, srv) ↦ some (record s { closed = srv.run ∷ s.closed; restarting = some addr })
]

-- ProcRestart behind its Sleep: every server that it restarts has a certificate.
unfoldable pub respawn : Bytes → Server → Server
respawn addr s = spawn true addr (record s { restarting = none })

unfoldable pub runs_of : Dict Bytes HttpServer → List ℕ → List ℕ
runs_of [] ids = ids
runs_of ((addr, srv) ∷ m) ids = srv.run ∷ runs_of m ids

-- Stop
unfoldable pub stop : Server → Server
unfolding runs_of
stop s = record s { closed = runs_of s.servers s.closed; servers = [] }

-- What happens behind Start, one part of a goroutine or a call at a time.
pub data Step : Server → Server → Type 0 where
  begins :
      {s : Server} (now id : ℕ) (run : Run)
      → lookup id s.pending ≡ some run
      → Step s (begin_run now id run s)
  ends :
      {s t : Server} (id : ℕ) (run : Run)
      → lookup id s.running ≡ some run
      → end_run id run s ≡ some t
      → Step s t
  picks : {s t : Server} (now : ℕ) → s.restarting ≡ none → pick_restart now s ≡ some t → Step s t
  respawns : {s : Server} (addr : Bytes) → s.restarting ≡ some addr → Step s (respawn addr s)
  stops : {s : Server} → Step s (stop s)

pub data Reach (s : Server) : Server → Type 0 where
  here : Reach s s
  then_step : {t u : Server} → Reach s t → Step t u → Reach s u
