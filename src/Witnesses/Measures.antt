-- ===== src/Witnesses/Measures.antt =====
-- A Test of three dialers.
use gocs.Prelude.{
  ℕ, ◌<◌, ◌≤◌, ◌≡◌, ◌↔◌, refl, none, List, [], ◌∷◌, Bytes, codes, arith, if◌then◌else◌, ◌==◌,
  bytes_eq,
}
use gocs.Errors.{errorf, message, Result, ok, err}
use gocs.Dialers.Sorted.{new_sorted, dial, tested_keys}
use gocs.Dialers.Sorted.Reaching.{IsPermuting, dials, tests, after, dial-ok_iff}
use gocs.Dialers.Sorted.Counting.{count}
use gocs.Dialers.Sorted.Testing.{Answer, reports, refuses, works, names_once, count_all, test}
use gocs.Dialers.Sorted.Testing.Results.{test-between}
use gocs.Witnesses.Routes.{hundredths, three, key_a, key_b}

-- The first dialer refuses, the second works, the third is a Tester.
abbrev answers : Bytes → Answer ℕ
answers k =
    if k == key_a
    then refuses (errorf (codes "down"))
    else if k == key_b
    then works none 4000000
    else reports [] 6000000 0

abbrev kept : List Bytes → List Bytes
kept keys = keys

some_succeed : 0 < (test hundredths answers kept three).0.success
unfolding test count_all names_once tested_keys message
some_succeed = omega arith

test-between_test :
    let q = (test hundredths answers kept three).0 in
    (q.min_used ≤ q.avg_used) × (q.avg_used ≤ q.max_used)
test-between_test = test-between hundredths answers kept three some_succeed

abbrev swapped : List Bytes → List Bytes
swapped [] = []
swapped (k ∷ []) = k ∷ []
swapped (j ∷ k ∷ ks) = k ∷ j ∷ ks

swapped-IsPermuting : IsPermuting swapped
swapped-IsPermuting [] k = refl
swapped-IsPermuting (j ∷ []) k = refl
swapped-IsPermuting (i ∷ j ∷ ks) k = omega arith

-- The first dialer refuses, any other succeeds.
abbrev dialled : Bytes → Result ℕ × ℕ
dialled k = if k == key_a then (err (errorf (codes "down")), 4) else (ok 1, 4)

dial-ok_iff_example :
    let names = key_a ∷ key_b ∷ [] in
    let s =
      after hundredths swapped
        (dials dialled 9000 ∷ tests answers ∷ [])
        (new_sorted hundredths 15 names) in
    ((r : ℕ) × ((dial hundredths swapped dialled 9500 s).0 ≡ ok r))
    ↔ ((k : Bytes) × (0 < count k names) × (r : ℕ) × ((dialled k).0 ≡ ok r))
dial-ok_iff_example =
    dial-ok_iff hundredths swapped dialled 9500 15 (key_a ∷ key_b ∷ [])
      (dials dialled 9000 ∷ tests answers ∷ []) swapped-IsPermuting
