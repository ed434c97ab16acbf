-- ===== src/Witnesses/Programs.antt =====
-- A Start of the client program with its forwards, and what its manager answers.
use gocs.Prelude.{◌≡◌, ◌⊎◌, refl, true, false, not, ◌||◌, Option, none, some, [], ◌∷◌, Bytes, codes}
use gocs.Prelude.Keys.{elem}
use gocs.Errors.{Error, external, message, Result, ok}
use gocs.Dialers.{Url}
use gocs.Dialers.Skip.{add_skip}
use gocs.ClientServers.{boostrap}
use gocs.ClientProgram.{
  ClientConf, no_conf, Client, returned, panicked, new_client, StartEnv, mode_args, run_prepare,
  read_texts, start_proxy, start_auto, start_manager, acquire, start_with, start, change_proxy_mode,
  is_nil,
}
use gocs.ClientProgram.Starting.{Ends, start-Ends}
use gocs.ClientProgram.Refused.{start-panics}
use gocs.ClientProgram.Forwards.{begin_forward, end_forward, Forwards, idle, more, begins, ends}
use gocs.ClientProgram.Handlers.{change_proxy_mode_h}
use gocs.ClientProgram.Handlers.Modes.{change_proxy_mode_h_branches}

-- A proxy server, a manager and one forward.
abbrev pub conf : ClientConf
conf = record no_conf {
  proxy_addr = codes ":1103";
  manager_addr = codes ":1101";
  mode = codes "auto";
  forwards = (codes "tcp://:2022", codes "tcp://h:22") ∷ [];
}

abbrev pub env : StartEnv
env = record {
  read_conf = λ c. ok conf;
  absolute = λ dir. ok (codes "/home");
  goos = codes "linux";
  command = λ cmd. none;
  read_rules = λ dir. ok [];
  compile = λ pattern. ok (λ s. false);
  load_cache = λ dir. [];
  start_server = λ k a. none;
  listen_manager = none;
  stamp = codes "7";
  run_native = λ args. (codes "done", none);
}

abbrev refused : Error
refused = external (codes "address already in use")

start-Ends_example : Ends env (start env new_client)
start-Ends_example = start-Ends env

start-panics_example :
    let crowded : StartEnv = record env { listen_manager = some refused } in
    ((start crowded new_client).0 ≡ panicked)
    × (elem 1 (start crowded new_client).1.opened ≡ true)
    × (elem 1 (start crowded new_client).1.closed ≡ false)
unfolding run_prepare boostrap add_skip
start-panics_example =
    start-panics (record env { listen_manager = some refused }) conf (codes "/home") [] [] refused
      refl refl refl refl refl refl refl refl refl refl refl

abbrev pub parse : Bytes → Result Url
parse local = ok (record { scheme = codes "tcp"; host = codes ":2022"; hostname = [] })

abbrev pub listen : Bytes → Bytes → Option Error
listen scheme host = none

started : (start env new_client).0 ≡ returned none
unfolding start start_with boostrap run_prepare add_skip acquire read_texts start_proxy start_auto
    start_manager change_proxy_mode new_client
started = refl

-- The forward begins to listen, as resource 3, and ends.
abbrev pub ended : Client
ended =
    end_forward 3 (codes "tcp://:2022")
      (begin_forward parse listen (codes "tcp://:2022") (start env new_client).1)

pub forwarded : Forwards parse listen (start env new_client).1 ended
unfolding start start_with boostrap run_prepare add_skip acquire read_texts start_proxy start_auto
    start_manager change_proxy_mode new_client begin_forward
forwarded =
    more (more idle (begins (codes "tcp://:2022") (codes "tcp://h:22") refl))
      (ends (codes "tcp://:2022") 3 refl)

-- The configuration file cannot be written.
abbrev write : ClientConf → Option Error
write c = some (external (codes "read-only"))

change_proxy_mode_h_branches_example :
    let c = (start env new_client).1 in
    let args = mode_args env.stamp (codes "global") c.conf in
    let (reply, d) = change_proxy_mode_h env write (codes "global") c in
    let accepted =
      ((is_nil c.server || not c.manager) ≡ false)
      × ((env.run_native args).1 ≡ none)
      × (d.native ≡ args ∷ c.native)
      × (d.conf ≡ record c.conf { mode = codes "global" }) in
    ((reply.status ≡ 500)
      × (d.conf ≡ c.conf)
      × (((is_nil c.server || not c.manager) ≡ true)
          ⊎ ((x : Error) × ((is_nil c.server || not c.manager) ≡ false)
              × ((env.run_native args).1 ≡ some x)
              × (reply.body ≡ message x))))
    ⊎ ((accepted × (write d.conf ≡ none) × (reply.status ≡ 200))
        ⊎ ((x : Error) × accepted
            × (write d.conf ≡ some x)
            × (reply.status ≡ 500)
            × (reply.body ≡ message x)))
change_proxy_mode_h_branches_example =
    change_proxy_mode_h_branches env write (codes "global") (start env new_client).1
