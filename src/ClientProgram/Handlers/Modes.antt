-- ===== src/ClientProgram/Handlers/Modes.antt =====
-- What a change of the mode does, and what the client then holds.
use gocs.Prelude.{
  ◌≡◌, ◌⊎◌, inl, inr, refl, true, false, not, ◌||◌, Option, none, some, ◌∷◌, Bytes, arith,
  Bool-cases,
}
use gocs.Errors.{Error, message}
use gocs.ClientProgram.{ClientConf, Client, StartEnv, mode_args, change_proxy_mode, is_nil}
use gocs.ClientProgram.Handlers.{change_proxy_mode_h}

-- ChangeProxyModeH ends in one of three ways. The client is not running, or it is and the system
-- refuses the settings of the mode: the reply is 500, with the error of the system then, and the
-- configuration stays. Otherwise the system was called last with
-- the arguments of the mode and the configuration in memory has that mode: then the reply is 200 if
-- the configuration file was written, and 500 if it was not.
pub change_proxy_mode_h_branches :
    (env : StartEnv) (write : ClientConf → Option Error) (mode : Bytes) (c : Client)
    → let args = mode_args env.stamp mode c.conf in
      let (reply, d) = change_proxy_mode_h env write mode c in
      let accepted =
        ((is_nil c.server || not c.manager) ≡ false)
        × ((env.run_native args).1 ≡ none)
        × (d.native ≡ args ∷ c.native)
        × (d.conf ≡ record c.conf { mode = mode }) in
      ((reply.status ≡ 500)
        × (d.conf ≡ c.conf)
        × (((is_nil c.server || not c.manager) ≡ true)
            ⊎ ((x : Error) × ((is_nil c.server || not c.manager) ≡ false)
                × ((env.run_native args).1 ≡ some x)
                × (reply.body ≡ message x))))
      ⊎ ((accepted × (write d.conf ≡ none) × (reply.status ≡ 200))
          ⊎ ((x : Error) × accepted
              × (write d.conf ≡ some x)
              × (reply.status ≡ 500)
              × (reply.body ≡ message x)))
unfolding change_proxy_mode_h change_proxy_mode
change_proxy_mode_h_branches env write mode c =
    elim (Bool-cases (is_nil c.server || not c.manager)) [
      | inl idle ↦ rw (idle, change_proxy_mode) (inl (refl, refl, inl refl))
      | inr busy ↦ rw (busy, change_proxy_mode) (ground (arith, busy))
    ]
