-- ===== src/Witnesses/Routes.antt =====
-- Concrete dialers for core/dialer.go.
use Prim.Native.Nat.{◌/◌}
use gocs.Prelude.{
  ℕ, ◌-◌, ◌*◌, ◌≡◌, refl, false, List, [], ◌∷◌, Bytes, codes, arith, ltb, if◌then◌else◌, ◌==◌,
  bytes_eq,
}
use gocs.Errors.{errorf, Result, ok, err}
use gocs.Dialers.Pac.{Cached}
use gocs.Dialers.Pac.Routes.{
  Tries, through_proxy, directly, dial_hosts, promised_all, Holds, dial_hosts-promised,
}
use gocs.Dialers.Sorted.{Float, Sorted}
use gocs.Dialers.Sorted.Counting.{Counts, dial_keys-Counts}
use gocs.Dialers.Sorted.Ordering.{IsOrdered}

-- The proxy reaches everything, and nothing is reached directly.
abbrev by_proxy : Bytes → Result ℕ
by_proxy target = ok 1

abbrev blocked : Bytes → Result ℕ
blocked target = err (errorf (codes "timeout"))

abbrev fresh : Cached Tries
fresh = record { cache = []; under = [] }

abbrev host : Bytes
host = codes "a.com"

abbrev target : Bytes
target = codes "tcp://a.com:80"

-- The first dial of a host learns that it needs the proxy, the second goes there alone.
abbrev visits : List (Bytes × Bytes)
visits =
    (host, target) ∷ (codes "b.com", codes "tcp://b.com:80") ∷ (host, codes "tcp://a.com:443") ∷ []

dial_hosts-promised_example :
    let r = dial_hosts by_proxy blocked visits fresh in
    let q = promised_all by_proxy blocked visits (λ k. false, []) in
    (r.0 ≡ q.0) × (r.1.under ≡ q.1.1) × Holds by_proxy blocked q.1.0 r.1
dial_hosts-promised_example =
    dial_hosts-promised by_proxy blocked visits fresh (λ k. false) (λ k. refl)

promised_all_test :
    (promised_all by_proxy blocked visits (λ k. false, [])).1.1
    ≡ through_proxy ∷ through_proxy ∷ directly ∷ through_proxy ∷ directly ∷ []
promised_all_test = refl

-- Rates in hundredths.
abbrev pub hundredths : Float
hundredths = record { F = ℕ; quotient = λ a b. a * 100 / b; minus = λ a b. a - b; less = ltb }

hundredths-IsOrdered : IsOrdered hundredths
hundredths-IsOrdered = record {
  irreflexive = λ x. ground arith;
  asymmetric = λ x y h. ground arith;
}

abbrev pub key_a : Bytes
key_a = codes "a"

abbrev pub key_b : Bytes
key_b = codes "b"

abbrev pub key_c : Bytes
key_c = codes "c"

-- Rates of 10, 25 and 40 hundredths with average times of 3, 2 and 1 ms.
abbrev pub three : Sorted hundredths
three = record {
  keys = key_a ∷ key_b ∷ key_c ∷ [];
  avg_time = λ k. if k == key_a then 3 else if k == key_b then 2 else 1;
  used_time = λ k. 0;
  try_count = λ k. 0;
  err_count = λ k. 0;
  err_rate = λ k. if k == key_a then 10 else if k == key_b then 25 else 40;
  sorting = false;
  sort_time = 0;
  rate_tolerance = 20;
  sort_delay = 5000;
  test_max = 0;
}

-- The first dialer fails, the others succeed.
abbrev replies : Bytes → Result ℕ × ℕ
replies k = if k == key_a then (err (errorf (codes "down")), 4) else (ok 1, 4)

dial_keys-Counts_test :
    Counts replies hundredths three.keys (errorf (codes "not dialer")) three key_a
dial_keys-Counts_test =
    dial_keys-Counts replies hundredths three.keys (errorf (codes "not dialer")) three key_a

abbrev sorted : List Bytes → List Bytes
sorted keys = key_b ∷ key_c ∷ key_a ∷ []
