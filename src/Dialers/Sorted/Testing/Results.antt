-- ===== src/Dialers/Sorted/Testing/Results.antt =====
-- What Test counts, and the times of its result.
use Prim.Native.Nat.{◌/◌}
use native.Mathlib.Nat.{
  mul_comm, mul-le-mul_left, le-div_iff_mul-le, div-mul-le_self, le_of_mul-le-mul_right,
}
use gocs.Prelude.{
  ℕ, zero, suc, ◌+◌, ◌*◌, ◌<◌, ◌≤◌, ◌≡◌, subst, refl, inl, inr, List, [], ◌∷◌, Bytes, bytes_eq,
  if◌then◌else◌, ltb, length, arith, Bool-cases,
}
use gocs.Dialers.Sorted.{Float, Sorted, tried, succeeded, failed, tested_keys}
use gocs.Dialers.Sorted.Counting.{count}
use gocs.Dialers.Sorted.Testing.{
  Answer, TestResult, fail_of, used_of, add_failure, add_success, is_empty, names_once, count_all,
  first_result, averaged, test,
}

lesser : (n m u total : ℕ) → n * m ≤ total → suc n * (if ltb u m then u else m) ≤ total + u
lesser n m u total h = elim (Bool-cases (ltb u m)) [
  | inl lower ↦ let p : u ≤ m = ground arith in rw lower (omega (arith, mul-le-mul_left n p))
  | inr above ↦ rw above (ground arith)
]

greater : (n m u total : ℕ) → total ≤ n * m → total + u ≤ suc n * (if ltb m u then u else m)
greater n m u total h = elim (Bool-cases (ltb m u)) [
  | inl above ↦ let p : m ≤ u = ground arith in rw above (omega (arith, mul-le-mul_left n p))
  | inr lower ↦ rw lower (ground arith)
]

-- A mean lies between the bounds.
mean-between :
    (n low high total : ℕ)
    → suc n * low ≤ total
    → total ≤ suc n * high
    → (low ≤ total / suc n) × (total / suc n ≤ high)
mean-between n low high total l h = (
  (le-div_iff_mul-le {k = suc n} {x = low} {y = total} (omega arith)).1
      (omega (arith, mul_comm low (suc n))),
  le_of_mul-le-mul_right {m = total / suc n} {n = high} {k = suc n}
      (omega (arith, div-mul-le_self total (suc n), mul_comm high (suc n))) (omega arith),
)

module _ (float : Float) {I : Type 0} (answer : Bytes → Answer I) where
  -- The keys whose dialers fail.
  abbrev pub failing : List Bytes → List Bytes
  failing [] = []
  failing (k ∷ ks) = if is_empty (fail_of (answer k)) then failing ks else k ∷ failing ks

  abbrev CountsOf : List Bytes → Sorted float → TestResult I → ℕ → Bytes → Type 0
  CountsOf ks s r total k =
      let (t, q, n) = count_all float answer ks s r total in
      (t.try_count k ≡ s.try_count k + count k ks)
      × (t.err_count k ≡ s.err_count k + count k (failing ks))
      × (q.success + q.fail ≡ r.success + r.fail + length ks)
      × (q.fail ≡ r.fail + length (failing ks))

  -- The time in total lies between those of as many fastest and as many slowest dials.
  abbrev IsBetween : TestResult I → ℕ → Type 0
  IsBetween r total = (r.success * r.min_used ≤ total) × (total ≤ r.success * r.max_used)

  add_success-IsBetween :
      (k : Bytes) (a : Answer I) (r : TestResult I) (total : ℕ)
      → IsBetween r total
      → IsBetween (add_success k a r) (total + used_of a)
  add_success-IsBetween k a r total (l, h) = (
    lesser r.success r.min_used (used_of a) total l,
    greater r.success r.max_used (used_of a) total h,
  )

  count_all-IsBetween :
      (ks : List Bytes) (s : Sorted float) (r : TestResult I) (total : ℕ)
      → IsBetween r total
      → let (t, q, n) = count_all float answer ks s r total in IsBetween q n
  unfolding count_all
  count_all-IsBetween [] s r total b = b
  count_all-IsBetween (j ∷ ks) s r total b = elim (Bool-cases (is_empty (fail_of (answer j)))) [
    | inl good ↦
        let a = answer j in
        rw (good, count_all)
          (count_all-IsBetween ks (succeeded float j (used_of a / 1000000) (tried float j s))
            (add_success j a r) (total + used_of a) (add_success-IsBetween j a r total b))
    | inr bad ↦
        let a = answer j in
        rw (bad, count_all)
          (count_all-IsBetween ks (failed float j (tried float j s)) (add_failure j a r) total b)
  ]

  abbrev tested : Sorted float → List Bytes
  tested s = names_once (tested_keys float s)

  averaged-between :
      (total : ℕ) (r : TestResult I)
      → IsBetween r total
      → 0 < r.success
      → let q = averaged float answer total r in
        (q.min_used ≤ q.avg_used) × (q.avg_used ≤ q.max_used)
  averaged-between total r (l, h) some' = go r.success refl
    where
      go :
          (n : ℕ)
          → r.success ≡ n
          → let avg : ℕ = elim n [ zero ↦ r.avg_used | suc m ↦ total / suc m ] in
            (r.min_used ≤ avg) × (avg ≤ r.max_used)
      go zero e = absurd (omega arith)
      go (suc n) e =
          mean-between n r.min_used r.max_used total (subst (λ x. x * r.min_used ≤ total) e l)
            (subst (λ x. total ≤ x * r.max_used) e h)

  -- Where a dialer succeeded, the average time of a result lies between its least and its greatest.
  pub test-between :
      (sort : List Bytes → List Bytes) (s : Sorted float)
      → 0 < (test float answer sort s).0.success
      → let q = (test float answer sort s).0 in
        (q.min_used ≤ q.avg_used) × (q.avg_used ≤ q.max_used)
  unfolding test
  test-between sort s some' =
      let names = tested s in
      let first = first_result float answer names in
      let (t, r, total) = count_all float answer names s first 0 in
      averaged-between total r (count_all-IsBetween names s first 0 (omega arith, omega arith))
        some'
