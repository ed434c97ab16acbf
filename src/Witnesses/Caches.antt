-- ===== src/Witnesses/Caches.antt =====
-- A concrete cache, its file, and the dialers below it.
use gocs.Prelude.{
  ◌≡◌, refl, true, ℕ, Option, none, some, List, [], ◌∷◌, All, ltb, Bytes, codes, bytes_eq, arith,
}
use gocs.Prelude.Dict.{Dict, insert, lookup-insert}
use gocs.Errors.{Error, errorf, external, Result, ok, err}
use gocs.Files.{Json, write_json}
use gocs.Files.Saving.{IsCodec, IsWrite}
use gocs.GoText.Decimal.{ℤ, pos, negsuc}
use gocs.Dialers.{Url}
use gocs.Dialers.Pac.{Cached, new_auto, save_cache, load_cache}
use gocs.Dialers.Pac.Routes.{Tries, noting, through_proxy, directly}
use gocs.Dialers.Pac.Caching.{Same, dial_all, load_cache-save_cache}

-- A format for at most one entry, whose number is not negative: the number, and the host name.
abbrev encode : Dict Bytes ℤ → Result Bytes
encode [] = ok []
encode ((host, pos n) ∷ []) = ok (n ∷ host)
encode ((host, negsuc n) ∷ []) = err (external (codes "negative"))
encode (x ∷ y ∷ m) = err (external (codes "too many entries"))

abbrev decode : Dict Bytes ℤ → Bytes → Option Error × Dict Bytes ℤ
decode base [] = (none, base)
decode base (n ∷ host) = (none, insert host (pos n) base)

abbrev json : Json (Dict Bytes ℤ)
json = record { encode = encode; decode = decode; write = λ text. (none, some text) }

-- Text of ASCII alone.
abbrev IsText : Bytes → Type 0
IsText = All (λ (c : ℕ). ltb c 128 ≡ true)

json-IsCodec : IsCodec (λ (e : Bytes × ℤ). IsText e.0) json
json-IsCodec [] text k hosts h = ground arith
json-IsCodec ((host, pos n) ∷ []) text k hosts h = ground (arith, lookup-insert host k (pos n) [])
json-IsCodec ((host, negsuc n) ∷ []) text k hosts h = absurd (ground arith)
json-IsCodec (x ∷ y ∷ m) text k hosts h = absurd (ground arith)

json-IsWrite : IsWrite json
json-IsWrite text h = refl

abbrev learned : Cached Tries
learned = record { cache = (codes "a.com", pos 1) ∷ []; under = [] }

abbrev parse : Bytes → Result Url
parse t = ok (record { scheme = codes "tcp"; host = codes "a.com:80"; hostname = codes "a.com" })

abbrev targets : List Bytes
targets = codes "tcp://a.com:80" ∷ codes "b.com" ∷ codes "tcp://a.com:80" ∷ []

abbrev by_proxy : Bytes → Result ℕ
by_proxy target = ok 1

abbrev blocked : Bytes → Result ℕ
blocked target = err (errorf (codes "timeout"))

load_cache-save_cache_example :
    let loading = load_cache json (save_cache json none learned).1 (new_auto []) in
    let dials = dial_all (noting through_proxy by_proxy) (noting directly blocked) parse targets in
    (loading.0 ≡ none)
    × ((dials loading.1).0 ≡ (dials learned).0)
    × Same (dials loading.1).1 (dials learned).1
unfolding write_json
load_cache-save_cache_example =
    load_cache-save_cache (noting through_proxy by_proxy) (noting directly blocked) parse IsText
      json none learned targets json-IsCodec json-IsWrite
      ((refl, (refl, (refl, (refl, (refl, tt))))), tt) refl
