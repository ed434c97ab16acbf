-- ===== src/Dialers/Pac.antt =====
-- PACDialer and AutoPACDialer. The map of Go ints is read with 0 for a missing key.
pub mod Routes
pub mod Caching
use gocs.Prelude.{
  ℕ, zero, suc, Bool, true, false, ◌||◌, Option, none, some, List, [], ◌∷◌, ◌≡◌, refl, Bytes, codes,
  if◌then◌else◌, ◌==◌, bytes_eq, eqb,
}
use gocs.Prelude.Dict.{Dict, lookup, insert}
use gocs.Errors.{Error, Result, ok, err}
use gocs.Files.{Json, File, read_json, write_json}
use gocs.GoText.{contains}
use gocs.GoText.Decimal.{ℤ, pos, negsuc}
use gocs.Dialers.{Url, PiperDialer}

-- `p.Check != nil && p.Check(u.Hostname())`
abbrev pub checks : Option (Bytes → Bool) → Bytes → Bool
checks none host = false
checks (some check) host = check host

-- The switch over the mode.
pub goes_proxy : Bytes → Option (Bytes → Bool) → Url → Bool
goes_proxy mode check u =
    if mode == codes "global"
    then true
    else if mode == codes "auto"
    then u.host == codes "proxy" || checks check u.hostname
    else false

-- The host name of a target, which need not be a URL.
pub host_of : (Bytes → Result Url) → Bytes → Result Bytes
unfolding contains
host_of parse target =
    if contains target (codes "://")
    then (elim (parse target) [ err e ↦ err e | ok u ↦ ok u.hostname ])
    else ok target

abbrev pub route : {S P : Type 0} → Bool → PiperDialer S P → PiperDialer S P → PiperDialer S P
route true proxy direct = proxy
route false proxy direct = direct

module _ (parse : Bytes → Result Url) {S P : Type 0} where
  -- PACDialer.DialPiper
  pub pac_dial : Bytes → Option (Bytes → Bool) → PiperDialer S P → PiperDialer S P → PiperDialer S P
  unfolding goes_proxy
  pac_dial mode check proxy direct target s = elim (parse target) [
    | err e ↦ (err e, s)
    | ok u ↦ route (goes_proxy mode check u) proxy direct target s
  ]

-- `proxy < 1`, for the entry of a host name.
abbrev pub below_one : Option ℤ → Bool
below_one none = true
below_one (some (pos n)) = eqb n 0
below_one (some (negsuc n)) = true

abbrev pub is_missing : Option ℤ → Bool
is_missing none = true
is_missing (some v) = false

-- The cache of an AutoPACDialer, and the state of the dialers that it calls.
pub record Cached (S : Type 0) : Type 0 where
  pub cache : Dict Bytes ℤ
  pub under : S

-- NewAutoPACDialer, over dialers in this state.
abbrev pub new_auto : {S : Type 0} → S → Cached S
new_auto under = record { cache = []; under = under }

module _ (json : Json (Dict Bytes ℤ)) {S : Type 0} where
  -- SaveCache: the error, and what the file then holds.
  abbrev pub save_cache : File → Cached S → Option Error × File
  save_cache file s = write_json json file s.cache

  -- LoadCache, which decodes over the cache that is there.
  abbrev pub loaded : Cached S → Option Error × Dict Bytes ℤ → Option Error × Cached S
  loaded s (e, cache) = (e, record s { cache = cache })

  abbrev pub load_cache : File → Cached S → Option Error × Cached S
  load_cache file s = loaded s (read_json json file s.cache)

module _ {S P : Type 0} (proxy direct : PiperDialer S P) where
  abbrev pub after_proxy : Bytes → Cached S → Result P × S → Result P × Cached S
  after_proxy host s (err e, s') = (err e, record s { under = s' })
  after_proxy host s (ok p, s') = (
    ok p,
    record {
      cache = if is_missing (lookup host s.cache) then insert host (pos 1) s.cache else s.cache;
      under = s';
    },
  )

  pub by_proxy : Bytes → Bytes → Cached S → Result P × Cached S
  by_proxy host target s = after_proxy host s (proxy target s.under)

  abbrev pub after_direct : Bytes → Bytes → Cached S → Result P × S → Result P × Cached S
  after_direct host target s (ok p, s') = (ok p, record s { under = s' })
  after_direct host target s (err e, s') = by_proxy host target (record s { under = s' })

  pub by_host : Bytes → Bytes → Cached S → Result P × Cached S
  unfolding by_proxy
  by_host host target s =
      if below_one (lookup host s.cache)
      then after_direct host target s (direct target s.under)
      else by_proxy host target s

  -- AutoPACDialer.DialPiper
  pub auto_dial : (Bytes → Result Url) → PiperDialer (Cached S) P
  unfolding host_of by_host
  auto_dial parse target s = elim (host_of parse target) [
    | err e ↦ (err e, s)
    | ok host ↦ by_host host target s
  ]
