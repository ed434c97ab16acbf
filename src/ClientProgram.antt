-- ===== src/ClientProgram.antt =====
-- The client program of cs_client.go: what Start acquires, in its order, and what Stop gives back.
-- A resource is a number: the pool of core.NewClient with its loop, and each listener. `opened` and
-- `closed` record those that were acquired and given back; `native` the commands for the proxy
-- settings; `saves` the caches that SaveCache was called with. A field that the code compares with
-- nil is an Option, and so is a server that may hold no listener.
pub mod Stopping
pub mod Refused
pub mod Holding
pub mod Starting
pub mod Forwards
pub mod Handlers
use gocs.Prelude.{
  ℕ, suc, Bool, true, false, Option, none, some, List, [], ◌∷◌, ◌++◌, Bytes, codes, if◌then◌else◌,
  ◌||◌, not, ◌==◌, bytes_eq,
}
use gocs.Prelude.Dict.{Dict, lookup, insert, delete}
use gocs.Errors.{Error, errorf, Result, ok, err}
use gocs.GoText.{split}
use gocs.GoText.Decimal.{ℤ}
use gocs.ClientServers.{ServerConf, Group, boostrap}
use gocs.Dialers.Skip.{Matcher, add_skip}

-- ClientConf, less the log level and pprof.
pub record ClientConf : Type 0 where
  pub servers : List ServerConf
  pub forwards : Dict Bytes Bytes
  pub proxy_addr : Bytes
  pub proxy_skip : List Bytes
  pub auto_proxy_addr : Bytes
  pub manager_addr : Bytes
  pub mode : Bytes
  pub prepare : Dict Bytes (List Bytes)
  pub work_dir : Bytes

pub record Client : Type 0 where
  pub conf : ClientConf
  pub work_dir : Bytes
  pub pool : Option ℕ
  pub groups : List Group
  pub server : Option (Option ℕ)
  pub auto_server : Option (Option ℕ)
  pub auto_dialer : Option (Dict Bytes ℤ)
  pub manager : Bool
  pub listener : Option ℕ
  pub forward_all : Dict Bytes ℕ
  pub spawned : Dict Bytes Bytes
  pub next : ℕ
  pub opened : List ℕ
  pub closed : List ℕ
  pub native : List (List Bytes)
  pub saves : List (Dict Bytes ℤ)

abbrev pub no_conf : ClientConf
no_conf = record {
  servers = [];
  forwards = [];
  proxy_addr = [];
  proxy_skip = [];
  auto_proxy_addr = [];
  manager_addr = [];
  mode = [];
  prepare = [];
  work_dir = [];
}

unfoldable pub new_client : Client
new_client = record {
  conf = no_conf;
  work_dir = [];
  pool = none;
  groups = [];
  server = none;
  auto_server = none;
  auto_dialer = none;
  manager = false;
  listener = none;
  forward_all = [];
  spawned = [];
  next = 0;
  opened = [];
  closed = [];
  native = [];
  saves = [];
}

-- What a call comes to: an error or nil, or a panic.
pub data Outcome : Type 0 where
  returned : Option Error → Outcome
  panicked : Outcome

abbrev pub close_one : ℕ → Client → Client
close_one r c = record c { closed = r ∷ c.closed }

abbrev pub save_cache : Client → Client
save_cache c = record c {
  saves = elim c.auto_dialer [ none ↦ c.saves | some cache ↦ cache ∷ c.saves ];
}

-- `c.Server.Close()`, where the server is not nil.
abbrev pub held : Option (Option ℕ) → List ℕ
held none = []
held (some none) = []
held (some (some r)) = r ∷ []

abbrev pub listeners : Dict Bytes ℕ → List ℕ
listeners [] = []
listeners ((local, r) ∷ m) = r ∷ listeners m

-- The part of Stop behind the manager's listener.
abbrev stop_rest : Client → Client
stop_rest c = record c {
  closed = listeners c.forward_all ++ (held c.auto_server ++ (held c.server ++ c.closed));
  forward_all = [];
}

abbrev stop_manager : Client → Outcome × Client
stop_manager c =
    if c.manager
    then (elim c.listener [
      | none ↦ (panicked, c)
      | some r ↦ (returned none, stop_rest (close_one r c))
    ])
    else (returned none, stop_rest c)

-- Stop. The Close of a nil pool, and of a nil listener behind a manager, are nil dereferences.
unfoldable pub stop : Client → Outcome × Client
stop c =
    let c' = save_cache c in
    elim c'.pool [ none ↦ (panicked, c') | some r ↦ stop_manager (close_one r c') ]

-- What the system and the libraries answer during a Start.
pub record StartEnv : Type 0 where
  -- ReadJSON over the configuration it is given.
  pub read_conf : ClientConf → Result ClientConf
  -- The absolute directory of `work_dir`, which the configuration's path may lead.
  pub absolute : Bytes → Result Bytes
  pub goos : Bytes
  pub command : Bytes → Option Error
  pub read_rules : Bytes → Result (List Bytes)
  pub compile : Bytes → Result Matcher
  -- What LoadCache leaves in the empty cache.
  pub load_cache : Bytes → Dict Bytes ℤ
  -- What the listen on an address answers, when it is the given resource of the client.
  pub start_server : ℕ → Bytes → Option Error
  pub listen_manager : Option Error
  -- The milliseconds of the clock in decimal, and what changeProxyModeNative answers.
  pub stamp : Bytes
  pub run_native : List Bytes → Bytes × Option Error

-- The commands of RunPrepare, up to the first that fails.
unfoldable pub run_commands : (Bytes → Option Error) → List Bytes → Option Error
run_commands command [] = none
run_commands command (cmd ∷ cmds) =
    let rest = run_commands command cmds in elim (command cmd) [ none ↦ rest | some e ↦ some e ]

abbrev or_nothing : Option (List Bytes) → List Bytes
or_nothing none = []
or_nothing (some cmds) = cmds

-- RunPrepare
unfoldable pub run_prepare : StartEnv → ClientConf → Option Error
unfolding run_commands
run_prepare env conf = run_commands env.command (or_nothing (lookup env.goos conf.prepare))

abbrev pub is_empty : Bytes → Bool
is_empty [] = true
is_empty (b ∷ s) = false

-- `parts[len(parts)-1]`; a Split is never empty.
abbrev pub last_part : List Bytes → Bytes
last_part [] = []
last_part (p ∷ []) = p
last_part (p ∷ q ∷ ps) = last_part (q ∷ ps)

-- The arguments of changeProxyModeNative for a mode.
unfoldable pub mode_args : Bytes → Bytes → ClientConf → List Bytes
unfolding split
mode_args stamp mode conf =
    if mode == codes "auto"
    then codes "auto"
      ∷ (codes "http://127.0.0.1:"
          ++ (last_part (split b':' conf.manager_addr) ++ (codes "/pac.js?timestamp=" ++ stamp)))
      ∷ []
    else if mode == codes "global"
    then codes "global" ∷ codes "127.0.0.1" ∷ last_part (split b':' conf.proxy_addr) ∷ []
    else codes "manual" ∷ []

abbrev pub is_nil : {A : Type 0} → Option A → Bool
is_nil none = true
is_nil (some a) = false

-- ChangeProxyMode
unfoldable pub change_proxy_mode : StartEnv → Bytes → Client → (Bytes × Option Error) × Client
unfolding mode_args
change_proxy_mode env mode c =
    if is_nil c.server || not c.manager
    then (([], some (errorf (codes "proxy server is not started"))), c)
    else (
      env.run_native (mode_args env.stamp mode c.conf),
      record c { native = mode_args env.stamp mode c.conf ∷ c.native },
    )

-- A part of Start: the error that it returns, if any, and the client.
abbrev pub Part : Type 0
Part = Client → Option Error × Client

abbrev pub then_part : Option Error × Client → Part → Option Error × Client
then_part (some e, c) p = (some e, c)
then_part (none, c) p = p c

-- Take the next resource.
abbrev pub take : Client → Client
take c = record c { next = suc c.next; opened = c.next ∷ c.opened }

-- What follows the rules and the skip patterns.
abbrev pub after_texts : Result (List Bytes) → Result (Unit {0}) → Part
after_texts (err e) skips c = (some e, c)
after_texts (ok rules) (err e) c = (some e, c)
after_texts (ok rules) (ok u) c = (none, c)

-- What follows the start of the proxy server, of the other one, and of the manager's listener.
abbrev pub after_proxy : Option Error → Part
after_proxy (some e) c = (some e, c)
after_proxy none c = (none, record (take c) { server = some (some c.next) })

abbrev pub after_auto : Option Error → Part
after_auto (some e) c = (some e, c)
after_auto none c = (none, record (take c) { auto_server = some (some c.next) })

abbrev pub after_listen : Option Error → Part
after_listen (some e) c = (some e, c)
after_listen none c = (none, record (take c) { listener = some c.next })

module _ (env : StartEnv) where
  -- NewSkipDialer with AddSkip, and the gfw rules.
  unfoldable pub read_texts : Part
  read_texts c =
      after_texts (env.read_rules c.work_dir) (add_skip env.compile c.conf.proxy_skip []).0 c

  -- The two servers and the AutoPACDialer are made, and the first server is started.
  abbrev pub made : Client → Client
  made c = record c {
    server = some none;
    auto_server = some none;
    auto_dialer = some (env.load_cache c.work_dir);
  }

  unfoldable pub start_proxy : Part
  start_proxy c = after_proxy (env.start_server c.next c.conf.proxy_addr) (made c)

  unfoldable pub start_auto : Part
  start_auto c =
      if is_empty c.conf.auto_proxy_addr
      then (none, c)
      else after_auto (env.start_server c.next c.conf.auto_proxy_addr) c

  -- `c.Manager` is set before net.Listen.
  unfoldable pub start_manager : Part
  start_manager c =
      if is_empty c.conf.manager_addr
      then (none, c)
      else after_listen env.listen_manager (record c { manager = true })

  -- Start behind Boostrap and its `defer`, up to the mode and the forwards.
  unfoldable pub acquire : Part
  unfolding read_texts start_proxy start_auto start_manager
  acquire c = then_part (then_part (then_part (read_texts c) start_proxy) start_auto) start_manager

  -- The deferred function: Stop where there is an error.
  abbrev pub guarded : Option Error × Client → Outcome × Client
  guarded (none, c) = (returned none, c)
  guarded (some e, c) = elim (stop c).0 [
    | returned x ↦ (returned (some e), (stop c).1)
    | panicked ↦ (panicked, (stop c).1)
  ]

  -- The mode, whose outcome is ignored, and a goroutine for each forward.
  abbrev pub finish : Outcome × Client → Outcome × Client
  finish (returned none, c) =
      let c' = (change_proxy_mode env c.conf.mode c).1 in
      (returned none, record c' { spawned = c'.conf.forwards ++ c'.spawned })
  finish (returned (some e), c) = (returned (some e), c)
  finish (panicked, c) = (panicked, c)

  abbrev refuse : Error → Client → Outcome × Client
  refuse e c = (returned (some e), c)

  abbrev pub default_conf : ClientConf
  default_conf = record no_conf { mode = codes "auto" }

  -- Start behind the checks of the configuration.
  unfoldable pub start_with : ClientConf → Bytes → Client → Outcome × Client
  unfolding stop acquire change_proxy_mode
  start_with conf work_dir c =
      let c' = record c { conf = conf; work_dir = work_dir } in
      elim (boostrap conf.servers) [
        | err e ↦ refuse e c'
        | ok groups ↦
            finish (guarded (acquire (record (take c') { pool = some c.next; groups = groups })))
      ]

  -- Start
  unfoldable pub start : Client → Outcome × Client
  unfolding start_with run_prepare
  start c = elim (env.read_conf default_conf) [
    | err e ↦ refuse e c
    | ok conf ↦
        if is_empty conf.proxy_addr
        then refuse (errorf (codes "Client proxy_addr is required")) c
        else (elim (env.absolute conf.work_dir) [
          | err e ↦ refuse e c
          | ok work_dir ↦ elim (run_prepare env conf) [
            | some e ↦ refuse e c
            | none ↦ start_with conf work_dir c
          ]
        ])
  ]
