-- ===== src/ClientProgram/Forwards/Releasing.antt =====
-- From Start to Stop with its forwards in between, no listener is lost.
use gocs.Prelude.{
  ℕ, sym, subst, ap, ◌≡◌, inl, inr, refl, eqb, ◌||◌, Option, none, some, [], ◌∷◌, ◌++◌, Bytes,
  bytes_eq, ◌==◌, arith, Bool-cases, beq_bytes_iff,
}
use gocs.Prelude.Dict.{
  Dict, lookup, insert, delete, lookup-insert, lookup-delete, Distinct, Distinct-insert,
  Distinct-delete,
}
use gocs.Prelude.Keys.{elem, elem-append}
use gocs.Errors.{Error, Result, ok, err, Result-cases}
use gocs.Dialers.{Url}
use gocs.ClientServers.{boostrap}
use gocs.ClientProgram.{
  Client, StartEnv, returned, new_client, held, listeners, take, stop, acquire, read_texts,
  start_proxy, start_auto, start_manager, default_conf, guarded, finish, start_with,
  change_proxy_mode, Outcome, panicked, ClientConf, start,
}
use gocs.ClientProgram.Stopping.{
  one, managed, servers, resources, IsHeld, IsReleased, stop-releases,
}
use gocs.ClientProgram.Starting.{IsStoppable, Ends, start-Ends}
use gocs.ClientProgram.Forwards.{
  begun, listened, parsed, begin_forward, end_forward, Step, begins, ends, Forwards, idle, more,
}

elem-listeners-insert :
    (local : Bytes) (n r : ℕ) (m : Dict Bytes ℕ)
    → lookup local m ≡ none
    → elem r (listeners (insert local n m)) ≡ (eqb n r || elem r (listeners m))
unfolding elem
elem-listeners-insert local n r [] h = refl
elem-listeners-insert local n r ((l, x) ∷ m) h = ground (arith, elem-listeners-insert local n r m)

delete-none : (local : Bytes) (m : Dict Bytes ℕ) → lookup local m ≡ none → delete local m ≡ m
delete-none local [] h = refl
delete-none local ((l, x) ∷ m) h = ground (arith, delete-none local m)

elem-listeners-delete :
    (local : Bytes) (n r : ℕ) (m : Dict Bytes ℕ)
    → Distinct m
    → lookup local m ≡ some n
    → elem r (listeners m) ≡ (eqb n r || elem r (listeners (delete local m)))
unfolding elem
elem-listeners-delete local n r [] d h = absurd (ground arith)
elem-listeners-delete local n r ((l, x) ∷ m) d h = elim (Bool-cases (l == local)) [
  | inl same ↦ ground (
    arith,
    same,
    beq_bytes_iff l local,
    ap (λ m'. elem r (listeners m')) (delete-none local m (ground (arith, beq_bytes_iff l local))),
  )
  | inr other ↦ ground (arith, elem-listeners-delete local n r m)
]

-- The listeners stand at the end of the client's resources.
elem-resources :
    (r : ℕ) (c : Client)
    → elem r (resources c) ≡ (
        elem r (one c.pool ++ (managed c ++ (held c.server ++ held c.auto_server)))
        || elem r (listeners c.forward_all))
elem-resources r c = ground (
  arith,
  elem-append r (one c.pool) (managed c ++ servers c),
  elem-append r (managed c) (servers c),
  elem-append r (held c.server) (held c.auto_server ++ listeners c.forward_all),
  elem-append r (held c.auto_server) (listeners c.forward_all),
  elem-append r (one c.pool) (managed c ++ (held c.server ++ held c.auto_server)),
  elem-append r (managed c) (held c.server ++ held c.auto_server),
  elem-append r (held c.server) (held c.auto_server),
)

-- The forwards of a running client: no listener is lost or overwritten, and no forward that is
-- listening has still to begin.
pub record IsForwarding (c : Client) : Type 0 where
  pub holds : IsHeld c
  pub stoppable : IsStoppable c
  pub distinct : Distinct c.forward_all
  pub begun_once : (l : Bytes) (r : ℕ) → lookup l c.forward_all ≡ some r → lookup l c.spawned ≡ none

fresh :
    (local remote : Bytes) (c : Client)
    → IsForwarding c
    → lookup local c.spawned ≡ some remote
    → lookup local c.forward_all ≡ none
fresh local remote c f h = go (lookup local c.forward_all) refl
  where
    go : (o : Option ℕ) → lookup local c.forward_all ≡ o → o ≡ none
    go none e = refl
    go (some r) e = absurd (ground (arith, f.begun_once local r e))

begun-IsForwarding : (local : Bytes) (c : Client) → IsForwarding c → IsForwarding (begun local c)
begun-IsForwarding local c f = record {
  holds = f.holds;
  stoppable = f.stoppable;
  distinct = f.distinct;
  begun_once = λ l r h. ground (arith, lookup-delete local l c.spawned, f.begun_once l r h);
}

listened-IsForwarding :
    (local : Bytes) (e : Option Error) (c : Client)
    → IsForwarding c
    → lookup local c.forward_all ≡ none
    → lookup local c.spawned ≡ none
    → IsForwarding (listened local e c)
unfolding elem
listened-IsForwarding local (some e) c f n s = f
listened-IsForwarding local none c f n s = record {
  holds = λ r o. ground (
    arith,
    f.holds r,
    elem-resources r c,
    elem-resources r (listened local none c),
    elem-listeners-insert local c.next r c.forward_all n,
  );
  stoppable = f.stoppable;
  distinct = Distinct-insert local c.next c.forward_all f.distinct;
  begun_once = λ l r h.
      ground (
        arith,
        lookup-insert local l c.next c.forward_all,
        f.begun_once l r,
        beq_bytes_iff local l,
      );
}

end_forward-IsForwarding :
    (local : Bytes) (n : ℕ) (c : Client)
    → IsForwarding c
    → lookup local c.forward_all ≡ some n
    → IsForwarding (end_forward n local c)
unfolding elem end_forward
end_forward-IsForwarding local n c f h = record {
  holds = λ r o. ground (
    arith,
    f.holds r,
    elem-resources r c,
    elem-resources r (end_forward n local c),
    elem-listeners-delete local n r c.forward_all f.distinct h,
  );
  stoppable = f.stoppable;
  distinct = Distinct-delete local c.forward_all f.distinct;
  begun_once = λ l r k. ground (arith, lookup-delete local l c.forward_all, f.begun_once l r);
}

module _ (parse : Bytes → Result Url) (listen : Bytes → Bytes → Option Error) where
  begin_forward-IsForwarding :
      (local remote : Bytes) (c : Client)
      → IsForwarding c
      → lookup local c.spawned ≡ some remote
      → IsForwarding (begin_forward parse listen local c)
  unfolding begin_forward
  begin_forward-IsForwarding local remote c f h = go (parse local)
    where
      b : IsForwarding (begun local c)
      b = begun-IsForwarding local c f

      go : (u : Result Url) → IsForwarding (parsed parse listen local u (begun local c))
      go (err e) = b
      go (ok u) =
          listened-IsForwarding local (listen u.scheme u.host) (begun local c) b
            (fresh local remote c f h)
            (ground (arith, lookup-delete local local c.spawned, beq_bytes_iff local local))

  Step-IsForwarding : {c d : Client} → Step parse listen c d → IsForwarding c → IsForwarding d
  Step-IsForwarding {c} (begins local remote h) f = begin_forward-IsForwarding local remote c f h
  Step-IsForwarding {c} (ends local r h) f = end_forward-IsForwarding local r c f h

  Forwards-IsForwarding :
      {c d : Client} → Forwards parse listen c d → IsForwarding c → IsForwarding d
  Forwards-IsForwarding idle f = f
  Forwards-IsForwarding (more fs s) f = Step-IsForwarding s (Forwards-IsForwarding fs f)

stoppable_stop : (c : Client) → IsStoppable c → (stop c).0 ≡ returned none
unfolding stop
stoppable_stop c (p, m) = ground arith

stop-forward_all : (c : Client) → c.forward_all ≡ [] → (stop c).1.forward_all ≡ []
unfolding stop
stop-forward_all c h = ground arith

module _ (env : StartEnv) where
  acquire-forward_all : (c : Client) → c.forward_all ≡ [] → (acquire env c).1.forward_all ≡ []
  unfolding acquire read_texts start_proxy start_auto start_manager
  acquire-forward_all c h = ground arith

  guarded-forward_all :
      (e : Option Error) (c : Client) → c.forward_all ≡ [] → (guarded env (e, c)).1.forward_all ≡ []
  guarded-forward_all none c h = h
  guarded-forward_all (some e) c h = ground (arith, stop-forward_all c)

  finish-forward_all :
      (o : Outcome) (c : Client) → c.forward_all ≡ [] → (finish env (o, c)).1.forward_all ≡ []
  unfolding change_proxy_mode
  finish-forward_all (returned none) c h = ground arith
  finish-forward_all (returned (some e)) c h = h
  finish-forward_all panicked c h = h

  start_with-forward_all :
      (conf : ClientConf) (work_dir : Bytes)
      → (start_with env conf work_dir new_client).1.forward_all ≡ []
  unfolding start_with new_client
  start_with-forward_all conf work_dir = elim (Result-cases (boostrap conf.servers)) [
    | inl (e, p) ↦ rw (p, start_with) refl
    | inr (groups, p) ↦
        let c : Client = record (take (record new_client { conf = conf; work_dir = work_dir })) {
          pool = some 0;
          groups = groups;
        } in
        let a = acquire env c in
        let g = guarded env a in
        rw (p, start_with)
          (finish-forward_all g.0 g.1 (guarded-forward_all a.0 a.1 (acquire-forward_all c refl)))
  ]

  start-forward_all : (start env new_client).1.forward_all ≡ []
  unfolding start new_client
  start-forward_all = elim (Result-cases (env.read_conf (default_conf env))) [
    | inl (e, p) ↦ rw (p, start) refl
    | inr (conf, p) ↦ elim (Result-cases (env.absolute conf.work_dir)) [
      | inl (e, q) ↦ ground (arith, p, q)
      | inr (dir, q) ↦ ground (arith, p, q, start_with-forward_all conf dir)
    ]
  ]

  -- Start, any forwards, Stop: if a Start of a new client returns no error, then after any sequence
  -- of forwards that begin, with or without success, and that end, Stop does not panic, gives back
  -- everything that the client has acquired since it was new, and leaves no forward.
  pub start-forwards-stop :
      (parse : Bytes → Result Url) (listen : Bytes → Bytes → Option Error) (d : Client)
      → (start env new_client).0 ≡ returned none
      → Forwards parse listen (start env new_client).1 d
      → ((stop d).0 ≡ returned none) × IsReleased (stop d).1 × ((stop d).1.forward_all ≡ [])
  start-forwards-stop parse listen d h fs =
      let f = Forwards-IsForwarding parse listen fs started in
      let s = stoppable_stop d f.stoppable in let (r, e) = stop-releases d f.holds s in (s, r, e)
    where
      running : IsHeld (start env new_client).1 × IsStoppable (start env new_client).1
      running = subst (λ (o : Outcome). Ends env (o, (start env new_client).1)) h (start-Ends env)

      started : IsForwarding (start env new_client).1
      started = record {
        holds = running.0;
        stoppable = running.1;
        distinct = subst Distinct (sym start-forward_all) tt;
        begun_once = λ l r k. absurd (ground (arith, start-forward_all));
      }
