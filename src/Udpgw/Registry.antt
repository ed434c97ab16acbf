-- ===== src/Udpgw/Registry.antt =====
-- allUDPGW of udpgw/udpgw.go: the gateways whose PipeConn runs, by their pointers. PipeConn enters
-- its gateway, and takes it out behind its close; procTimeout sweeps all of them at once.
use gocs.Prelude.{
  ℕ, ◌≡◌, refl, subst, true, Option, none, some, List, [], ◌∷◌, Bytes, arith, All, nat_eq, inl, inr,
  Bool-cases, eqb,
}
use gocs.Prelude.Dict.{Dict, lookup, insert, delete, All-insert, All-delete}
use gocs.Prelude.Keys.{elem}
use gocs.Udpgw.{UdpConn, Udpgw, Env, new_udpgw, proc_data, end_read, close_all, proc_timeout}
use gocs.Udpgw.Header.{Addr}
use gocs.Udpgw.Sockets.{close_all-IsTracked}
use gocs.Udpgw.Life
use gocs.Udpgw.Life.{IsSound, Step-IsSound, with_dns-IsSound}

-- The registry, and the gateways whose PipeConn has ended.
pub record Gateways : Type 0 where
  pub registry : Dict ℕ Udpgw
  pub ended : List Udpgw

abbrev pub no_gateways : Gateways
no_gateways = record { registry = []; ended = [] }

-- The first and the last part of PipeConn, on a gateway as DialPiper makes it: new, with the
-- configured DNS if the server has one.
abbrev pub enter : ℕ → Option Addr → Gateways → Gateways
enter k dns g = record g { registry = insert k (record new_udpgw { dns_addr = dns }) g.registry }

abbrev pub take_out : ℕ → Udpgw → Gateways → Gateways
take_out k u g = record { registry = delete k g.registry; ended = close_all u ∷ g.ended }

-- What the connections and the timer do, under the lock of the registry or of one gateway.
pub data Move : Gateways → Gateways → Type 0 where
  enters :
      {g : Gateways} (k : ℕ) (dns : Option Addr)
      → lookup k g.registry ≡ none
      → Move g (enter k dns g)
  arrives :
      {g : Gateways} (k : ℕ) (u : Udpgw) (env : Env) (p : Bytes)
      → lookup k g.registry ≡ some u
      → Move g (record g { registry = insert k (proc_data env u p).1 g.registry })
  reader_ends :
      {g : Gateways} (k : ℕ) (u : Udpgw) (c : UdpConn)
      → lookup k g.registry ≡ some u
      → ((d : UdpConn) → lookup c.conid u.conn_list ≡ some d → d.raw ≡ c.raw)
      → Move g (record g { registry = insert k (end_read u c) g.registry })
  sweeps :
      {g : Gateways} (now timeout : ℕ)
      → Move g (record g { registry = proc_timeout now timeout g.registry })
  leaves :
      {g : Gateways} (k : ℕ) (u : Udpgw) → lookup k g.registry ≡ some u → Move g (take_out k u g)

pub data Reach (g : Gateways) : Gateways → Type 0 where
  here : Reach g g
  after : {h i : Gateways} → Reach g h → Move h i → Reach g i

-- Every socket that the gateway has dialled is closed, and its table is empty.
abbrev pub IsClosed : Udpgw → Type 0
IsClosed u = ((r : ℕ) → elem r u.opened ≡ true → elem r u.closed ≡ true) × (u.conn_list ≡ [])

abbrev IsEntry : ℕ × Udpgw → Type 0
IsEntry (k, u) = IsSound u

abbrev IsOrderly : Gateways → Type 0
IsOrderly g = All IsEntry g.registry × All IsClosed g.ended

entry-IsSound :
    (k : ℕ) (u : Udpgw) (m : Dict ℕ Udpgw) → lookup k m ≡ some u → All IsEntry m → IsSound u
entry-IsSound k u [] h a = absurd (ground arith)
entry-IsSound k u ((j, v) ∷ m) h (s, a) = elim (Bool-cases (eqb j k)) [
  | inl same ↦ subst IsSound (some_same v u (ground (arith, same))) s
  | inr other ↦ entry-IsSound k u m (ground (arith, other)) a
]
  where
    some_same : (v u : Udpgw) → some v ≡ some u → v ≡ u
    some_same v u e = ground arith

proc_timeout-IsSound :
    (now timeout : ℕ) (m : Dict ℕ Udpgw) → All IsEntry m → All IsEntry (proc_timeout now timeout m)
unfolding proc_timeout
proc_timeout-IsSound now timeout [] a = tt
proc_timeout-IsSound now timeout ((k, u) ∷ m) (s, a) =
    (Step-IsSound s (Life.Step.sweeps now timeout refl), proc_timeout-IsSound now timeout m a)

close_all-IsClosed : (u : Udpgw) → IsSound u → IsClosed (close_all u)
unfolding close_all elem
close_all-IsClosed u s = (λ r h. ground (arith, close_all-IsTracked u s.tracked r), refl)

Move-IsOrderly : {g h : Gateways} → Move g h → IsOrderly g → IsOrderly h
Move-IsOrderly {g} (enters k dns free) (a, c) = (
  All-insert IsEntry k (record new_udpgw { dns_addr = dns }) g.registry (with_dns-IsSound dns) a,
  c,
)
Move-IsOrderly {g} (arrives k u env p h) (a, c) =
    let s = entry-IsSound k u g.registry h a in
    (
      All-insert IsEntry k (proc_data env u p).1 g.registry
          (Step-IsSound s (Life.Step.arrives env p refl)) a,
      c,
    )
Move-IsOrderly {g} (reader_ends k u r h own) (a, c) =
    let s = entry-IsSound k u g.registry h a in
    (
      All-insert IsEntry k (end_read u r) g.registry (Step-IsSound s (Life.Step.ends r own refl)) a,
      c,
    )
Move-IsOrderly {g} (sweeps now timeout) (a, c) = (proc_timeout-IsSound now timeout g.registry a, c)
Move-IsOrderly {g} (leaves k u h) (a, c) = (
  All-delete IsEntry k g.registry a,
  (close_all-IsClosed u (entry-IsSound k u g.registry h a), c),
)

-- The gateways of a server keep to themselves: whatever connections come to a server without
-- gateways, with a DNS of its configuration or none, what packets they bring, when the timer sweeps all of them, which readers end while their
-- id is still theirs and which connections end, every gateway in the registry is sound, that is within
-- its MaxConn and with each dialled socket closed or held by its table, and every gateway whose
-- PipeConn has ended has all its sockets closed and an empty table.
pub Reach-IsOrderly :
    {g : Gateways}
    → Reach no_gateways g
    → All (λ (e : ℕ × Udpgw). IsSound e.1) g.registry × All IsClosed g.ended
Reach-IsOrderly here = (tt, tt)
Reach-IsOrderly (after r m) = Move-IsOrderly m (Reach-IsOrderly r)
