-- ===== src/Dialers/Pac/Routes.antt =====
-- Which way a target takes, and what the cache of an AutoPACDialer remembers.
use gocs.Prelude.{
  ◌≡◌, refl, Bool, true, false, ◌||◌, Option, none, some, List, [], ◌∷◌, ◌&&◌, subst, ap₂, Bytes,
  if◌then◌else◌, ◌==◌, bytes_eq, beq_bytes_iff, arith,
}
use gocs.Prelude.Dict.{lookup, lookup-insert}
use gocs.Errors.{Result, ok, err}
use gocs.GoText.Decimal.{ℤ, pos}
use gocs.Dialers.{PiperDialer}
use gocs.Dialers.Pac.{Cached, by_proxy, by_host}

pub data Way : Type 0 where
  through_proxy directly : Way

-- The ways that were tried, latest first.
abbrev pub Tries : Type 0
Tries = List Way

-- A dialer that answers like this and notes its way.
abbrev pub noting : {P : Type 0} → Way → (Bytes → Result P) → PiperDialer Tries P
noting way answer target tries = (answer target, way ∷ tries)

module _ {P : Type 0} (proxy direct : Bytes → Result P) where
  abbrev pub dial_host : Bytes → Bytes → Cached Tries → Result P × Cached Tries
  dial_host = by_host (noting through_proxy proxy) (noting directly direct)

  -- Targets, each with its host name, that are dialled one after the other.
  pub dial_hosts : List (Bytes × Bytes) → Cached Tries → List (Result P) × Cached Tries
  dial_hosts [] s = ([], s)
  dial_hosts ((host, target) ∷ targets) s =
      let (r, s') = dial_host host target s in
      let (rs, s'') = dial_hosts targets s' in (r ∷ rs, s'')

  abbrev is_ok : Result P → Bool
  is_ok (ok p) = true
  is_ok (err e) = false

  -- What AutoPACDialer promises, over the set of the hosts that it knows to need the proxy: such a
  -- host goes through the proxy alone. Another is tried directly, and through the proxy where that
  -- fails, which makes the host known if it succeeds.
  abbrev pub Known : Type 0
  Known = Bytes → Bool

  abbrev pub learn : Bytes → Bool → Known → Known
  learn host needed known k = known k || (host == k && needed)

  abbrev pub promised : Bytes → Bytes → Known × Tries → Result P × (Known × Tries)
  promised host target (known, tries) =
      if known host then (proxy target, (known, through_proxy ∷ tries)) else elim (direct target) [
        | ok p ↦ (ok p, (known, directly ∷ tries))
        | err e ↦ (
          proxy target,
          (learn host (is_ok (proxy target)) known, through_proxy ∷ directly ∷ tries),
        )
      ]

  abbrev pub promised_all : List (Bytes × Bytes) → Known × Tries → List (Result P) × (Known × Tries)
  promised_all [] k = ([], k)
  promised_all ((host, target) ∷ targets) k =
      let (r, k') = promised host target k in
      let (rs, k'') = promised_all targets k' in (r ∷ rs, k'')

  -- The cache of these hosts: 1 for each.
  abbrev pub entry_of : Bool → Option ℤ
  entry_of true = some (pos 1)
  entry_of false = none

  abbrev pub Holds : Known → Cached Tries → Type 0
  Holds known s = (k : Bytes) → lookup k s.cache ≡ entry_of (known k)

  dial_host-promised :
      (host target : Bytes) (s : Cached Tries) (known : Known)
      → Holds known s
      → let r = dial_host host target s in
        let q = promised host target (known, s.under) in
        (r.0 ≡ q.0) × (r.1.under ≡ q.1.1) × Holds q.1.0 r.1
  unfolding by_host by_proxy
  dial_host-promised host target s known h = (
    ground (arith, h host),
    ground (arith, h host),
    λ k. ground (arith, h host, h k, beq_bytes_iff host k, lookup-insert host k (pos 1) s.cache),
  )

  -- AutoPACDialer keeps its promise. From a cache that is that of a set of known hosts, as an empty
  -- one and any that it has written are, it answers any targets of any hosts, dialled one after the
  -- other over dialers that answer each target the same at all times, as the promise says, in the
  -- ways that it says, and the cache afterwards is that of the hosts known then.
  pub dial_hosts-promised :
      (targets : List (Bytes × Bytes)) (s : Cached Tries) (known : Known)
      → Holds known s
      → let r = dial_hosts targets s in
        let q = promised_all targets (known, s.under) in
        (r.0 ≡ q.0) × (r.1.under ≡ q.1.1) × Holds q.1.0 r.1
  unfolding dial_hosts
  dial_hosts-promised [] s known h = (refl, refl, h)
  dial_hosts-promised ((host, target) ∷ targets) s known h =
      let d = (dial_host host target s).1 in
      let next = (promised host target (known, s.under)).1 in
      let (answer, tries, holds) = dial_host-promised host target s known h in
      let (answers, last, final) =
        subst
          (λ (l : Tries).
            let r = dial_hosts targets d in
            let q = promised_all targets (next.0, l) in
            (r.0 ≡ q.0) × (r.1.under ≡ q.1.1) × Holds q.1.0 r.1)
          tries (dial_hosts-promised targets d next.0 holds) in
      (ap₂ (λ r rs. r ∷ rs) answer answers, last, final)
