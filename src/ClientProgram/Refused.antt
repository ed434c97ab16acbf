-- ===== src/ClientProgram/Refused.antt =====
-- A Start whose manager cannot listen.
use gocs.Prelude.{◌≡◌, refl, true, false, none, some, List, [], Bytes}
use gocs.Prelude.Keys.{elem}
use gocs.Errors.{Error, ok}
use gocs.ClientServers.{Group, boostrap}
use gocs.Dialers.Skip.{add_skip}
use gocs.ClientProgram.{
  ClientConf, panicked, new_client, stop, StartEnv, is_empty, read_texts, start_proxy, start_auto,
  start_manager, acquire, start_with, start, run_prepare, default_conf,
}

-- Where everything up to the manager succeeds, without an address for the other proxy server, and
-- the manager's listener is refused, Start does not return that error: it panics, in the Stop that
-- it has deferred, and the listener of its proxy server, which is its resource 1, stays open.
pub start-panics :
    (env : StartEnv) (conf : ClientConf) (dir : Bytes) (groups : List Group) (rules : List Bytes)
    (x : Error)
    → env.read_conf (default_conf env) ≡ ok conf
    → is_empty conf.proxy_addr ≡ false
    → env.absolute conf.work_dir ≡ ok dir
    → run_prepare env conf ≡ none
    → boostrap conf.servers ≡ ok groups
    → env.read_rules dir ≡ ok rules
    → (add_skip env.compile conf.proxy_skip []).0 ≡ ok tt
    → env.start_server 1 conf.proxy_addr ≡ none
    → is_empty conf.auto_proxy_addr ≡ true
    → is_empty conf.manager_addr ≡ false
    → env.listen_manager ≡ some x
    → ((start env new_client).0 ≡ panicked)
      × (elem 1 (start env new_client).1.opened ≡ true)
      × (elem 1 (start env new_client).1.closed ≡ false)
unfolding start start_with new_client acquire read_texts start_proxy start_auto start_manager stop
    elem
start-panics env conf dir groups rules x a b c d e f g h i j k =
    rw
      (
        a, b, c, d, e, f, g, h, i, j, k, start, start_with, acquire, read_texts, start_proxy,
        start_auto, start_manager, stop,
      )
      (refl, refl, refl)
