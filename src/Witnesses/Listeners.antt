-- ===== src/Witnesses/Listeners.antt =====
-- A server program with one http listener, its restart, and its Stop.
use gocs.Prelude.{none}
use gocs.Prelude.{
  suc, ◌+◌, ◌≡◌, refl, true, false, some, [], ◌∷◌, codes, nat_eq, eqb_iff, arith, length,
}
use gocs.Prelude.Dict.{lookup}
use gocs.Prelude.Keys.{elem}
use gocs.Ports.{parse_listen_addr, parse_port_addr}
use gocs.GoText.{split_two}
use gocs.GoText.Decimal.{parse_int, show_int}
use gocs.Errors.{ok}
use gocs.ServerProgram.{
  UserFiles, ServerConf, Run, Server, new_server, spawn_all, http_start, start, begin_run, end_run,
  stop, runs_of, here, then_step, begins,
}
use gocs.ServerProgram.Counting.{IsCounted, Reach-waits}
use gocs.ServerProgram.Owning.{IsOnce, TimelyReach, timely_here, timely_step, IsTimely}
use gocs.ServerProgram.Stopping.{stop-closes_running}
use gocs.ServerProgram.Orphaning.{end_run-orphans}

abbrev pub conf : ServerConf
conf = record {
  http_addr = codes ":80";
  https_addr = [];
  https_gen = 1;
  timeout = 0;
  manager = [];
  user_file = [];
  dns_server = [];
}

abbrev pub read : UserFiles
read = (
  record {
    encode = λ users. ok [];
    decode = λ users text. (none, users);
    write = λ text. (none, some text);
  },
  λ name. none,
)

abbrev listener : Run
listener = record { addr = codes ":80"; tls = false }

abbrev pub started : Server
started = (start read (new_server conf)).1

abbrev pub running : Server
running = begin_run 5 0 listener started

begun : lookup 0 started.pending ≡ some listener
unfolding start http_start spawn_all new_server parse_listen_addr parse_port_addr split_two
    parse_int show_int
begun = refl

runs : lookup 0 running.running ≡ some listener
unfolding begin_run
runs = refl

Reach-waits_example :
    (running.waiting ≡ length running.pending + length running.running)
    × (t : Server) × (end_run 0 listener running ≡ some t)
    × (suc t.waiting ≡ running.waiting)
Reach-waits_example =
    Reach-waits conf read running 0 listener (then_step here (begins 5 0 listener begun)) runs

pub started-IsOnce : IsOnce started
unfolding start http_start spawn_all new_server parse_listen_addr parse_port_addr split_two
    parse_int show_int
started-IsOnce = record {
  pending_once = λ i j r q a b e. ground (arith, eqb_iff 0 i, eqb_iff 0 j);
  running_once = λ i j r q a b e. absurd (ground arith);
  between = λ i j r q a b e. absurd (ground arith);
}

pub timely : TimelyReach started running
unfolding IsTimely
timely = timely_step timely_here (begins 5 0 listener begun) tt

stop-closes_running_example : elem 0 (stop running).closed ≡ true
stop-closes_running_example =
    stop-closes_running conf read running 0 listener started-IsOnce timely runs

-- The listener was closed for a restart, and the new one is pending.
abbrev again : Run
again = record { addr = codes ":80"; tls = true }

abbrev restarting : Server
restarting = record (new_server conf) {
  waiting = 2;
  pending = (1, again) ∷ [];
  running = (0, listener) ∷ [];
  servers = (codes ":80", record { run = 0; start_time = 5 }) ∷ [];
  closed = 0 ∷ [];
  next = 2;
}

restarting-IsCounted : IsCounted restarting
restarting-IsCounted = record {
  counted = refl;
  pending_once = (refl, tt);
  running_once = (refl, tt);
  apart = λ id run h. ground (arith, eqb_iff 0 id, eqb_iff 1 id);
  pending_old = λ id h. ground (arith, eqb_iff 1 id);
  running_old = λ id h. ground (arith, eqb_iff 0 id);
}

end_run-orphans_example :
    (t : Server) × (end_run 0 listener (begin_run 9 1 again restarting) ≡ some t)
    × (lookup 1 (stop t).running ≡ some again)
    × (elem 1 (stop t).closed ≡ false)
unfolding elem runs_of
end_run-orphans_example =
    end_run-orphans 9 0 1 listener again restarting restarting-IsCounted refl refl refl refl
