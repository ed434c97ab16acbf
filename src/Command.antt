-- ===== src/Command.antt =====
-- The command: coversocks/cs_main.go, and what it calls, StartServer and StopServer of cs_server.go
-- and StartClient and StopClient of cs_client.go, with the globals of the package.
pub mod Serving
pub mod Driving
use gocs.Prelude.{◌≡◌, refl, Bool, true, false, Option, none, some, Bytes, if◌then◌else◌}
use gocs.Errors.{Error, Result, ok, err}
use gocs.Udpgw.Timer.{Timer, idle, start_timeout, call_stop}
use gocs.ServerProgram
use gocs.ServerProgram.{UserFiles, ServerConf, Server, new_server}
use gocs.ClientProgram
use gocs.ClientProgram.{StartEnv, Client, new_client, Outcome, returned, panicked}

-- `server`, and the timer of the gateways.
pub record ServerGlobals : Type 0 where
  pub server : Option Server
  pub timer : Timer

-- The globals as they are declared.
abbrev pub no_server : ServerGlobals
no_server = record { server = none; timer = idle }

-- StartServer behind its StartTimeout; `server` is set before Start.
abbrev pub serving : ServerGlobals → Option Error × Server → Option Timer → Outcome × ServerGlobals
serving g r none = (panicked, g)
serving g (e, s) (some t) = (returned e, record { server = some s; timer = t })

-- StartServer, from what ReadJSON answers.
unfoldable pub start_server :
    UserFiles → Result ServerConf → ServerGlobals → Outcome × ServerGlobals
start_server read (err e) g = (returned (some e), g)
start_server read (ok conf) g =
    serving g (ServerProgram.start read (new_server conf)) (start_timeout g.timer)

abbrev pub stopped : Option Server → Option Server
stopped none = none
stopped (some s) = some (ServerProgram.stop s)

-- StopServer up to its StopTimeout: the server that it has stopped, and the globals.
unfoldable pub stop_server : ServerGlobals → Option Server × ServerGlobals
stop_server g = (stopped g.server, record { server = none; timer = call_stop g.timer })

-- StartClient; `clientInstance` is replaced, whatever it was.
unfoldable pub start_client : StartEnv → Option Client → Outcome × Option Client
start_client env old = let (o, c) = ClientProgram.start env new_client in (o, some c)

-- What StopClient closes, and what it leaves in `clientInstance`.
abbrev pub forget : Outcome × Client → (Outcome × Option Client) × Option Client
forget (returned e, c) = ((returned none, some c), none)
forget (panicked, c) = ((panicked, some c), some c)

-- StopClient: its outcome with the client that it has stopped, and `clientInstance`.
unfoldable pub stop_client : Option Client → (Outcome × Option Client) × Option Client
stop_client none = ((returned none, none), none)
stop_client (some c) = forget (ClientProgram.stop c)

-- The flags of the command.
pub record Flags : Type 0 where
  pub conf : Bytes
  pub runs_server : Bool
  pub runs_client : Bool
  pub shows_version : Bool

-- The flags as they are declared.
unfoldable pub default_flags : Bytes → Flags
default_flags conf = record {
  conf = conf;
  runs_server = false;
  runs_client = true;
  shows_version = false;
}

-- What main has come to where it waits or ends.
pub data Main : Type 0 where
  version_shown usage_shown crashed : Main
  exited : Error → Main
  waits_for_server : ServerGlobals → Main
  waits_for_client : Option Client → Main

abbrev pub server_started : Outcome × ServerGlobals → Main
server_started (returned none, g) = waits_for_server g
server_started (returned (some e), g) = exited e
server_started (panicked, g) = crashed

abbrev pub client_started : Outcome × Option Client → Main
client_started (returned none, c) = waits_for_client c
client_started (returned (some e), c) = exited e
client_started (panicked, c) = crashed

-- What the system answers to a configuration's path.
pub record System : Type 0 where
  pub server_conf : Bytes → Result ServerConf
  pub user_files : UserFiles
  pub client_env : Bytes → StartEnv

-- main, up to its wait.
unfoldable pub main : System → Flags → Main
unfolding start_server start_client
main sys flags =
    if flags.shows_version
    then version_shown
    else if flags.runs_server
    then server_started (start_server sys.user_files (sys.server_conf flags.conf) no_server)
    else if flags.runs_client
    then client_started (start_client (sys.client_env flags.conf) none)
    else usage_shown
