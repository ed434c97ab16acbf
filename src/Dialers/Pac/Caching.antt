-- ===== src/Dialers/Pac/Caching.antt =====
-- An AutoPACDialer whose cache is saved, and one that loads it.
use gocs.Prelude.{◌≡◌, ap₂, refl, inl, inr, none, All, List, [], ◌∷◌, Bytes, bytes_eq, arith}
use gocs.Prelude.Dict.{Dict, lookup, lookup-insert}
use gocs.Errors.{Result, Result-cases}
use gocs.Files.{Json, File}
use gocs.Files.Saving.{IsCodec, IsWrite, saved-read}
use gocs.GoText.Decimal.{ℤ, pos}
use gocs.Dialers.{Url, PiperDialer}
use gocs.Dialers.Pac.{
  Cached, new_auto, save_cache, load_cache, host_of, by_proxy, by_host, auto_dial,
}

-- Dialers whose caches have the same entries, over dialers in the same state.
abbrev pub Same : {S : Type 0} → Cached S → Cached S → Type 0
Same a b = (a.under ≡ b.under) × ((k : Bytes) → lookup k a.cache ≡ lookup k b.cache)

module _ {S P : Type 0} (proxy direct : PiperDialer S P) where
  by_proxy-entry :
      (host target : Bytes) (a b : Cached S) (k : Bytes)
      → a.under ≡ b.under
      → lookup host a.cache ≡ lookup host b.cache
      → lookup k a.cache ≡ lookup k b.cache
      → ((by_proxy proxy direct host target a).0 ≡ (by_proxy proxy direct host target b).0)
        × ((by_proxy proxy direct host target a).1.under
            ≡ (by_proxy proxy direct host target b).1.under)
        × (lookup k (by_proxy proxy direct host target a).1.cache
            ≡ lookup k (by_proxy proxy direct host target b).1.cache)
  unfolding by_proxy
  by_proxy-entry host target a b k u h e =
      ground (arith, lookup-insert host k (pos 1) a.cache, lookup-insert host k (pos 1) b.cache)

  by_host-entry :
      (host target : Bytes) (a b : Cached S) (k : Bytes)
      → a.under ≡ b.under
      → lookup host a.cache ≡ lookup host b.cache
      → lookup k a.cache ≡ lookup k b.cache
      → ((by_host proxy direct host target a).0 ≡ (by_host proxy direct host target b).0)
        × ((by_host proxy direct host target a).1.under
            ≡ (by_host proxy direct host target b).1.under)
        × (lookup k (by_host proxy direct host target a).1.cache
            ≡ lookup k (by_host proxy direct host target b).1.cache)
  unfolding by_host by_proxy
  by_host-entry host target a b k u h e =
      ground (arith, lookup-insert host k (pos 1) a.cache, lookup-insert host k (pos 1) b.cache)

  by_host-Same :
      (host target : Bytes) (a b : Cached S)
      → Same a b
      → ((by_host proxy direct host target a).0 ≡ (by_host proxy direct host target b).0)
        × Same (by_host proxy direct host target a).1 (by_host proxy direct host target b).1
  by_host-Same host target a b (u, same) =
      let entries = λ (k : Bytes). by_host-entry host target a b k u (same host) (same k) in
      ((entries host).0, ((entries host).1, λ k. (entries k).2))

  module _ (parse : Bytes → Result Url) where
    auto_dial-Same :
        (target : Bytes) (a b : Cached S)
        → Same a b
        → ((auto_dial proxy direct parse target a).0 ≡ (auto_dial proxy direct parse target b).0)
          × Same (auto_dial proxy direct parse target a).1 (auto_dial proxy direct parse target b).1
    unfolding auto_dial
    auto_dial-Same target a b (u, same) = elim (Result-cases (host_of parse target)) [
      | inl (e, p) ↦ rw (p, auto_dial) (refl, (u, same))
      | inr (host, p) ↦ rw (p, auto_dial) (by_host-Same host target a b (u, same))
    ]

    -- Targets that are dialled one after the other.
    pub dial_all : List Bytes → Cached S → List (Result P) × Cached S
    dial_all [] s = ([], s)
    dial_all (target ∷ targets) s =
        let (r, s') = auto_dial proxy direct parse target s in
        let (rs, s'') = dial_all targets s' in (r ∷ rs, s'')

    dial_all-Same :
        (targets : List Bytes) (a b : Cached S)
        → Same a b
        → ((dial_all targets a).0 ≡ (dial_all targets b).0)
          × Same (dial_all targets a).1 (dial_all targets b).1
    unfolding dial_all
    dial_all-Same [] a b same = (refl, same)
    dial_all-Same (target ∷ targets) a b same =
        let (e, next) = auto_dial-Same target a b same in
        let (es, last) =
          dial_all-Same targets (auto_dial proxy direct parse target a).1
            (auto_dial proxy direct parse target b).1 next in
        (ap₂ (λ r rs. r ∷ rs) e es, last)

    -- What an AutoPACDialer has learned outlives it: once its cache is saved without an error, a
    -- new dialer that loads the file loads it without an error, and answers any targets, dialled
    -- one after the other over proxy and direct dialers in the same state, as the first one does,
    -- leaves those in the same state, and has the same entries afterwards. It needs that
    -- the hosts in the cache are text, that the JSON of a cache with such hosts decodes to its
    -- entries, and that a write without an error has written its text. Text stands for valid UTF-8,
    -- which is what encoding/json keeps.
    pub load_cache-save_cache :
        (IsText : Bytes → Type 0) (json : Json (Dict Bytes ℤ)) (file : File) (s : Cached S)
        (targets : List Bytes)
        → IsCodec (λ (e : Bytes × ℤ). IsText e.0) json
        → IsWrite json
        → All (λ (e : Bytes × ℤ). IsText e.0) s.cache
        → (save_cache json file s).0 ≡ none
        → let loading = load_cache json (save_cache json file s).1 (new_auto s.under) in
          (loading.0 ≡ none)
          × ((dial_all targets loading.1).0 ≡ (dial_all targets s).0)
          × Same (dial_all targets loading.1).1 (dial_all targets s).1
    load_cache-save_cache IsText json file s targets codec writes hosts saved =
        let fresh = (load_cache json (save_cache json file s).1 (new_auto s.under)).1 in
        let read = saved-read (λ (e : Bytes × ℤ). IsText e.0) json file s.cache in
        let same : Same fresh s = (refl, λ k. (read k codec writes hosts saved).1) in
        let (answers, after) = dial_all-Same targets fresh s same in
        ((read [] codec writes hosts saved).0, answers, after)
