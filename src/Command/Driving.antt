-- ===== src/Command/Driving.antt =====
-- The client of the command, from its start to the signal that ends it.
use gocs.Prelude.{◌≡◌, refl, Option, none, some, Bytes, [], arith, subst, sym}
use gocs.Errors.{Error, Result, err}
use gocs.Dialers.{Url}
use gocs.ClientProgram
use gocs.ClientProgram.{StartEnv, Client, new_client, Outcome, returned, panicked, default_conf}
use gocs.ClientProgram.Stopping.{IsReleased}
use gocs.ClientProgram.Forwards.{Forwards}
use gocs.ClientProgram.Forwards.Releasing.{start-forwards-stop}
use gocs.Command.{start_client, stop_client, System, Flags, main, waits_for_client}

main-client :
    (sys : System) (flags : Flags) (c : Client)
    → main sys flags ≡ waits_for_client (some c)
    → (ClientProgram.start (sys.client_env flags.conf) new_client).0 ≡ returned none
      × ((ClientProgram.start (sys.client_env flags.conf) new_client).1 ≡ c)
unfolding main start_client
main-client sys flags c h = ground arith

-- The signal ends the command that runs as a client: where main has started a client and waits for
-- it, then after any forwards that begin, with or without success, and that end, the StopClient of
-- the signal's handler does not panic, gives back everything that the client has acquired, leaves
-- no forward and no client; and a second StopClient does nothing.
pub main-stop_client :
    (sys : System) (flags : Flags) (parse : Bytes → Result Url)
    (listen : Bytes → Bytes → Option Error) (c d : Client)
    → main sys flags ≡ waits_for_client (some c)
    → Forwards parse listen c d
    → (stop_client (some d) ≡ ((returned none, some (ClientProgram.stop d).1), none))
      × IsReleased (ClientProgram.stop d).1
      × ((ClientProgram.stop d).1.forward_all ≡ [])
      × (stop_client (stop_client (some d)).1 ≡ ((returned none, none), none))
unfolding stop_client
main-stop_client sys flags parse listen c d h fs =
    let (started, same) = main-client sys flags c h in
    let (stops, released, nobody) =
      start-forwards-stop (sys.client_env flags.conf) parse listen d started
        (subst (λ x. Forwards parse listen x d) (sym same) fs) in
    (ground (arith, stops), released, nobody, ground (arith, stops))

-- A StartClient whose configuration cannot be read returns that error, and leaves a client without a
-- pool: a StopClient behind it panics.
pub stop_client-unread :
    (env : StartEnv) (old : Option Client) (e : Error)
    → env.read_conf (default_conf env) ≡ err e
    → ((start_client env old).0 ≡ returned (some e))
      × ((stop_client (start_client env old).1).0.0 ≡ panicked)
unfolding start_client stop_client ClientProgram.start ClientProgram.stop new_client
stop_client-unread env old e h = rw (h, ClientProgram.start) (refl, refl)
