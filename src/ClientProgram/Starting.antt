-- ===== src/ClientProgram/Starting.antt =====
-- What a Start leaves behind, however it ends.
use gocs.Prelude.{
  ℕ, ◌∙◌, sym, ap, ◌≡◌, ◌⊎◌, inl, inr, refl, eqb, eqb_iff, not, Bool, true, false, ◌||◌, Option,
  none, some, List, [], ◌++◌, Bytes, codes, if◌then◌else◌, arith, Bool-cases,
}
use gocs.Prelude.Keys.{elem}
use gocs.Errors.{Error, errorf, Result, ok, err}
use gocs.ClientServers.{Group, boostrap}
use gocs.Dialers.Skip.{add_skip}
use gocs.ClientProgram.{
  ClientConf, Client, held, listeners, Outcome, returned, panicked, new_client, take, stop,
  StartEnv, then_part, after_texts, after_proxy, after_auto, after_listen, made, is_empty,
  read_texts, start_proxy, start_auto, start_manager, acquire, guarded, finish, start_with, start,
  run_prepare, default_conf, change_proxy_mode, is_nil,
}
use gocs.ClientProgram.Stopping.{
  stop-returned, one, managed, servers, resources, IsHeld, IsReleased, stop-panics_iff,
  stop-releases,
}
use gocs.ClientProgram.Holding.{elem-middle, elem-second, elem-third, IsHeld-take}

-- Stop can close what the client holds.
abbrev pub IsStoppable : Client → Type 0
IsStoppable c =
    ((p : ℕ) × (c.pool ≡ some p)) × ((c.manager ≡ false) ⊎ ((l : ℕ) × (c.listener ≡ some l)))

module _ (env : StartEnv) where
  -- The only way to a client that Stop panics on: the manager's listener was refused.
  abbrev pub IsRefused : Option Error → Type 0
  IsRefused e = (x : Error) × (e ≡ some x) × (env.listen_manager ≡ some x)

  abbrev Stands : Option Error × Client → Type 0
  Stands (e, c) =
      IsHeld c
      × ((p : ℕ) × (c.pool ≡ some p))
      × ((c.manager ≡ false) ⊎ (((l : ℕ) × (c.listener ≡ some l)) ⊎ IsRefused e))

  start_manager-Stands :
      (c : Client) (p : ℕ)
      → IsHeld c
      → c.manager ≡ false
      → c.listener ≡ none
      → c.pool ≡ some p
      → Stands (start_manager env c)
  unfolding start_manager
  start_manager-Stands c p h m l q = go (is_empty c.conf.manager_addr) env.listen_manager refl
    where
      same : (r : ℕ) → resources (record c { manager = true }) ≡ resources c
      same r = rw (l, m)

      nobody : managed c ≡ []
      nobody = rw m

      go :
          (b : Bool) (a : Option Error)
          → env.listen_manager ≡ a
          → Stands (if b then (none, c) else after_listen a (record c { manager = true }))
      go true a e = (h, (p, q), inl m)
      go false (some x) e = (
        (λ r o. ap (λ l. elem r c.closed || elem r l) (same r) ∙ h r o),
        (p, q),
        inr (inr (x, refl, e)),
      )
      go false none e = (
        IsHeld-take c (record (take c) { manager = true; listener = some c.next }) refl refl
            (λ r.
              elem-middle r c.next (one c.pool) (servers c)
              ∙ ap (λ l. eqb c.next r || elem r (one c.pool ++ (l ++ servers c))) (sym nobody))
            h,
        (p, q),
        inr (inl (c.next, refl)),
      )

  start_auto-Stands :
      (c : Client) (p : ℕ)
      → IsHeld c
      → c.auto_server ≡ some none
      → c.manager ≡ false
      → c.listener ≡ none
      → c.pool ≡ some p
      → Stands (then_part (start_auto env c) (start_manager env))
  unfolding start_auto
  start_auto-Stands c p h a m l q =
      go (is_empty c.conf.auto_proxy_addr) (env.start_server c.next c.conf.auto_proxy_addr)
    where
      running : Client
      running = record (take c) { auto_server = some (some c.next) }

      more : (r : ℕ) → elem r (resources running) ≡ (eqb c.next r || elem r (resources c))
      more r =
          elem-third r c.next (one c.pool) (managed c) (held c.server) (listeners c.forward_all)
          ∙ ap
              (λ l.
                eqb c.next r
                || elem r (
                    one c.pool
                    ++ (managed c ++ (held c.server ++ (held l ++ listeners c.forward_all)))))
              (sym a)

      go :
          (b : Bool) (x : Option Error)
          → Stands (then_part (if b then (none, c) else after_auto x c) (start_manager env))
      go true x = start_manager-Stands c p h m l q
      go false (some x) = (h, (p, q), inl m)
      go false none = start_manager-Stands running p (IsHeld-take c running refl refl more h) m l q

  start_proxy-Stands :
      (c : Client) (p : ℕ)
      → IsHeld c
      → c.server ≡ none
      → c.auto_server ≡ none
      → c.manager ≡ false
      → c.listener ≡ none
      → c.pool ≡ some p
      → Stands (then_part (then_part (start_proxy env c) (start_auto env)) (start_manager env))
  unfolding start_proxy
  start_proxy-Stands c p h s a m l q = go (env.start_server c.next c.conf.proxy_addr)
    where
      d : Client
      d = made env c

      made-IsHeld : IsHeld d
      made-IsHeld r o =
          ap (λ (l : List ℕ). elem r c.closed || elem r (one c.pool ++ (managed c ++ l)))
            (rw (s, a))
          ∙ h r o

      running : Client
      running = record (take d) { server = some (some c.next) }

      more : (r : ℕ) → elem r (resources running) ≡ (eqb c.next r || elem r (resources d))
      more r = elem-second r c.next (one c.pool) (managed c) (listeners c.forward_all)

      go :
          (x : Option Error)
          → Stands (then_part (then_part (after_proxy x d) (start_auto env)) (start_manager env))
      go (some x) = (made-IsHeld, (p, q), inl m)
      go none =
          start_auto-Stands running p (IsHeld-take d running refl refl more made-IsHeld) refl m l q

  acquire-Stands :
      (c : Client) (p : ℕ)
      → IsHeld c
      → c.server ≡ none
      → c.auto_server ≡ none
      → c.manager ≡ false
      → c.listener ≡ none
      → c.pool ≡ some p
      → Stands (acquire env c)
  unfolding acquire read_texts
  acquire-Stands c p h s a m l q =
      go (env.read_rules c.work_dir) (add_skip env.compile c.conf.proxy_skip []).0
    where
      go :
          (rules : Result (List Bytes)) (skips : Result (Unit {0}))
          → Stands (
              then_part
                (then_part
                  (then_part (after_texts rules skips c) (start_proxy env))
                  (start_auto env))
                (start_manager env))
      go (err e) skips = (h, (p, q), inl m)
      go (ok rules) (err e) = (h, (p, q), inl m)
      go (ok rules) (ok u) = start_proxy-Stands c p h s a m l q

  -- How a Start ends: with a client that Stop can close and that holds all its resources; with an
  -- error, and everything given back; or in a panic, behind a refused listener of the manager.
  abbrev pub Ends : Outcome × Client → Type 0
  Ends (returned none, c) = IsHeld c × IsStoppable c
  Ends (returned (some e), c) = IsReleased c
  Ends (panicked, c) = (x : Error) × (env.listen_manager ≡ some x)

  guarded-Ends : (e : Option Error) (c : Client) → Stands (e, c) → Ends (guarded env (e, c))
  guarded-Ends none c (h, p, inl m) = (h, (p, inl m))
  guarded-Ends none c (h, p, inr (inl l)) = (h, (p, inr l))
  guarded-Ends none c (h, p, inr (inr (x, e, l))) = absurd (ground arith)
  guarded-Ends (some e) c (h, (p, q), m) = go (stop c).0 refl m
    where
      refused :
          (stop c).0 ≡ panicked
          → (c.manager ≡ false) ⊎ (((l : ℕ) × (c.listener ≡ some l)) ⊎ IsRefused (some e))
          → (x : Error) × (env.listen_manager ≡ some x)
      refused k (inr (inr (x, y, z))) = (x, z)
      refused k (inr (inl (l, y))) = elim ((stop-panics_iff c).0 k) [
        | inl none' ↦ absurd (ground arith)
        | inr (on, off) ↦ absurd (ground arith)
      ]
      refused k (inl m) = elim ((stop-panics_iff c).0 k) [
        | inl none' ↦ absurd (ground arith)
        | inr (on, off) ↦ absurd (ground arith)
      ]

      go :
          (o : Outcome)
          → (stop c).0 ≡ o
          → (c.manager ≡ false) ⊎ (((l : ℕ) × (c.listener ≡ some l)) ⊎ IsRefused (some e))
          → Ends (elim o [
            | returned x ↦ (returned (some e), (stop c).1)
            | panicked ↦ (panicked, (stop c).1)
          ])
      go (returned x) k m = (stop-releases c h (k ∙ ap returned (stop-returned c x k))).0
      go panicked k m = refused k m

  finish-Ends : (o : Outcome) (c : Client) → Ends (o, c) → Ends (finish env (o, c))
  unfolding change_proxy_mode
  finish-Ends panicked c h = h
  finish-Ends (returned (some e)) c h = h
  finish-Ends (returned none) c h = elim (Bool-cases (is_nil c.server || not c.manager)) [
    | inl idle ↦ rw (idle, change_proxy_mode) h
    | inr busy ↦ rw (busy, change_proxy_mode) h
  ]

  start_with-Ends :
      (conf : ClientConf) (work_dir : Bytes) → Ends (start_with env conf work_dir new_client)
  unfolding start_with new_client elem
  start_with-Ends conf work_dir = go (boostrap conf.servers)
    where
      configured : Client
      configured = record new_client { conf = conf; work_dir = work_dir }

      pooled : List Group → Client
      pooled groups = record (take configured) { pool = some 0; groups = groups }

      go :
          (b : Result (List Group))
          → Ends (elim b [
            | err e ↦ (returned (some e), configured)
            | ok groups ↦ finish env (guarded env (acquire env (pooled groups)))
          ])
      go (err e) = λ r o. o
      go (ok groups) =
          let a = acquire env (pooled groups) in
          let g = guarded env a in
          finish-Ends g.0 g.1 (
            guarded-Ends a.0 a.1 (
              acquire-Stands (pooled groups) 0 (λ r o. ground (arith, eqb_iff 0 r)) refl refl refl
                refl refl))

  -- A Start of a new client ends in one of three ways: without an error, and the client holds all
  -- the resources that it has acquired and Stop does not panic on it; with an error, and everything
  -- that it has acquired is given back; or in a panic, and then the manager's listener was refused.
  pub start-Ends : Ends (start env new_client)
  unfolding start new_client elem
  start-Ends = go (env.read_conf (default_conf env))
    where
      checked :
          (conf : ClientConf) (b : Bool) (dir : Result Bytes) (ready : Option Error)
          → Ends (
              if b
              then (returned (some (errorf (codes "Client proxy_addr is required"))), new_client)
              else (elim dir [
                | err e ↦ (returned (some e), new_client)
                | ok work_dir ↦ elim ready [
                  | some e ↦ (returned (some e), new_client)
                  | none ↦ start_with env conf work_dir new_client
                ]
              ]))
      checked conf true dir ready = λ r o. o
      checked conf false (err e) ready = λ r o. o
      checked conf false (ok work_dir) (some e) = λ r o. o
      checked conf false (ok work_dir) none = start_with-Ends conf work_dir

      go :
          (r : Result ClientConf)
          → Ends (elim r [
            | err e ↦ (returned (some e), new_client)
            | ok conf ↦
                if is_empty conf.proxy_addr
                then (returned (some (errorf (codes "Client proxy_addr is required"))), new_client)
                else (elim (env.absolute conf.work_dir) [
                  | err e ↦ (returned (some e), new_client)
                  | ok work_dir ↦ elim (run_prepare env conf) [
                    | some e ↦ (returned (some e), new_client)
                    | none ↦ start_with env conf work_dir new_client
                  ]
                ])
          ])
      go (err e) = λ r o. o
      go (ok conf) =
          checked conf (is_empty conf.proxy_addr) (env.absolute conf.work_dir)
            (run_prepare env conf)
