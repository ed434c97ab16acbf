-- ===== src/Witnesses/Commands.antt =====
-- The command as a server with one listener and as a client with one forward, each up to its signal.
use gocs.Prelude.{◌≡◌, refl, true, false, none, some, [], codes}
use gocs.Errors.{errorf, ok}
use gocs.Udpgw.Timer.{
  Timer, idle, start_timeout, send_exit, take_exit, Moves, unmoved, moved, exit_sent, exit_taken,
  looping, leaving, waiting,
}
use gocs.GoText.{split_two}
use gocs.GoText.Decimal.{parse_int, show_int}
use gocs.Ports.{parse_listen_addr, parse_port_addr}
use gocs.ServerProgram.{ServerConf, new_server, spawn_all, http_start, start, begin_run, stop}
use gocs.ServerProgram.Draining.{none_ended}
use gocs.ClientServers.{boostrap}
use gocs.Dialers.Skip.{add_skip}
use gocs.ClientProgram
use gocs.ClientProgram.{
  Client, returned, panicked, new_client, run_prepare, read_texts, start_proxy, start_auto,
  start_manager, acquire, start_with, change_proxy_mode,
}
use gocs.ClientProgram.Stopping.{IsReleased}
use gocs.Command.{
  ServerGlobals, no_server, start_server, stop_server, start_client, stop_client, Flags, System,
  main, waits_for_server, waits_for_client,
}
use gocs.Command.Serving.{Drains, main-stop_server, start_server-again}
use gocs.Command.Driving.{main-stop_client}
use gocs.Witnesses.Listeners.{conf, read, started, running, started-IsOnce, timely}
use gocs.Witnesses.Programs.{env, parse, listen, ended, forwarded}

abbrev sys : System
sys = record { server_conf = λ path. ok conf; user_files = read; client_env = λ path. env }

abbrev as_server : Flags
as_server = record {
  conf = codes "server.json";
  runs_server = true;
  runs_client = true;
  shows_version = false;
}

-- The timer behind StartServer, and behind two moves of a stop.
abbrev ticking : Timer
ticking = record idle { running = true; loop = looping }

abbrev left : Timer
left = record ticking { loop = leaving; caller = waiting }

abbrev serving : ServerGlobals
serving = record { server = some started; timer = ticking }

waits : main sys as_server ≡ waits_for_server serving
unfolding main start_server start_timeout start http_start spawn_all new_server parse_listen_addr
    parse_port_addr split_two parse_int show_int
waits = refl

abbrev stopping : ServerGlobals
stopping = record serving { server = some running }

told : Moves (stop_server stopping).1.timer 2 left
unfolding stop_server send_exit take_exit
told = moved (moved unmoved (exit_sent refl)) (exit_taken refl)

main-stop_server_example :
    ((stop_server stopping).0 ≡ some (stop running))
    × Drains (stop_server stopping).1 running 0 (stop running) 2 left
unfolding begin_run start http_start spawn_all new_server parse_listen_addr parse_port_addr
    split_two parse_int show_int
main-stop_server_example =
    main-stop_server sys as_server serving started running (stop running) 0 2 left waits refl
      started-IsOnce timely refl none_ended told

abbrev empty : ServerConf
empty = record conf { http_addr = [] }

start_server-again_example :
    ((start_server read (ok empty) no_server).0
      ≡ returned (some (errorf (codes "http_addr and https_addr is empty"))))
    × ((start_server read (ok conf) (start_server read (ok empty) no_server).1).0 ≡ panicked)
start_server-again_example = start_server-again read empty conf refl refl

abbrev as_client : Flags
as_client = record as_server { runs_server = false }

waits_too : main sys as_client ≡ waits_for_client (some (ClientProgram.start env new_client).1)
unfolding main start_client ClientProgram.start start_with boostrap run_prepare add_skip acquire
    read_texts start_proxy start_auto start_manager change_proxy_mode new_client
waits_too = refl

main-stop_client_example :
    (stop_client (some ended) ≡ ((returned none, some (ClientProgram.stop ended).1), none))
    × IsReleased (ClientProgram.stop ended).1
    × ((ClientProgram.stop ended).1.forward_all ≡ [])
    × (stop_client (stop_client (some ended)).1 ≡ ((returned none, none), none))
main-stop_client_example =
    main-stop_client sys as_client parse listen (ClientProgram.start env new_client).1 ended
      waits_too forwarded
