-- ===== src/Dialers/Sorted/Reaching.antt =====
-- What a SortedDialer reaches, whatever it has dialled, tested and sorted before.
use Prim.Native.Nat.{◌/◌}
use gocs.Prelude.{
  ℕ, ◌+◌, ◌<◌, ◌≡◌, ◌≢◌, ◌↔◌, ◌∙◌, ap, sym, refl, inl, inr, List, [], ◌∷◌, Bytes, codes, ◌==◌,
  bytes_eq, beq_bytes_iff, arith, Bool-cases,
}
use gocs.Errors.{Error, errorf, Result, ok, err, Result-cases}
use gocs.Dialers.Sorted.{
  Float, Sorted, new_sorted, tried, succeeded, failed, trigger_sort, tested_keys, dial_keys, dial,
}
use gocs.Dialers.Sorted.Counting.{count, outcome, dial_keys-Counts, dial_keys-keys}
use gocs.Dialers.Sorted.Testing.{
  Answer, TestResult, used_of, add_failure, add_success, count_all, first_result, names_once, test,
}

-- A call, with what the dialers answer to it.
pub data Call (R I : Type 0) : Type 0 where
  dials : (Bytes → Result R × ℕ) → ℕ → Call R I
  tests : (Bytes → Answer I) → Call R I

-- What the code relies on in sort.Sort: it permutes the names.
abbrev pub IsPermuting : (List Bytes → List Bytes) → Type 0
IsPermuting sort = (keys : List Bytes) (k : Bytes) → count k (sort keys) ≡ count k keys

module _ {R : Type 0} (answer : Bytes → Result R × ℕ) where
  outcome-ok :
      (keys : List Bytes) (last : Error) (r : R)
      → outcome answer keys last ≡ ok r
      → (k : Bytes) × (0 < count k keys) × ((answer k).0 ≡ ok r)
  outcome-ok [] last r h = absurd (ground arith)
  outcome-ok (key ∷ keys) last r h = elim (Result-cases (answer key).0) [
    | inl (e, p) ↦
        let (k, there, q) = outcome-ok keys e r (ground (arith, p)) in (k, omega (arith, there), q)
    | inr (r', p) ↦ (key, ground (arith, beq_bytes_iff key key), ground (arith, p))
  ]

  outcome-err :
      (keys : List Bytes) (last e : Error) (k : Bytes) (r : R)
      → outcome answer keys last ≡ err e
      → 0 < count k keys
      → (answer k).0 ≢ ok r
  outcome-err [] last e k r h i p = absurd (ground arith)
  outcome-err (key ∷ keys) last e k r h i p = elim (Result-cases (answer key).0) [
    | inl (e', q) ↦ elim (Bool-cases (key == k)) [
      | inl same ↦ absurd (ground (arith, beq_bytes_iff key k))
      | inr other ↦ outcome-err keys e' e k r (ground (arith, q)) (ground arith) p
    ]
    | inr (r', q) ↦ absurd (ground (arith, q))
  ]

module _ (float : Float) (sort : List Bytes → List Bytes) where
  trigger_sort-count :
      (now : ℕ) (k : Bytes) (s : Sorted float)
      → IsPermuting sort
      → count k (trigger_sort float sort now s).keys ≡ count k s.keys
  unfolding trigger_sort
  trigger_sort-count now k s h = ground (arith, h s.keys k)

  dial-count :
      {R : Type 0} (answer : Bytes → Result R × ℕ) (now : ℕ) (k : Bytes) (s : Sorted float)
      → IsPermuting sort
      → count k (dial float sort answer now s).1.keys ≡ count k s.keys
  unfolding dial
  dial-count answer now k s h =
      let dialled = dial_keys float answer s.keys (errorf (codes "not dialer")) s in
      trigger_sort-count now k dialled.1 h
      ∙ ap (count k) (dial_keys-keys answer float s.keys (errorf (codes "not dialer")) s).0

  dial-outcome :
      {R : Type 0} (answer : Bytes → Result R × ℕ) (now : ℕ) (s : Sorted float)
      → (dial float sort answer now s).0 ≡ outcome answer s.keys (errorf (codes "not dialer"))
  unfolding dial
  dial-outcome answer now s =
      (dial_keys-Counts answer float s.keys (errorf (codes "not dialer")) s []).0

  module _ {I : Type 0} (answer : Bytes → Answer I) where
    count_all-keys :
        (ks : List Bytes) (s : Sorted float) (r : TestResult I) (total : ℕ)
        → (count_all float answer ks s r total).0.keys ≡ s.keys
    unfolding count_all succeeded failed
    count_all-keys [] s r total = refl
    count_all-keys (k ∷ ks) s r total =
        let a = answer k in
        ground (
          arith,
          count_all-keys ks (failed float k (tried float k s)) (add_failure k a r) total,
          count_all-keys ks (succeeded float k (used_of a / 1000000) (tried float k s))
              (add_success k a r) (total + used_of a),
        )

    test-count :
        (k : Bytes) (s : Sorted float)
        → IsPermuting sort
        → count k (test float answer sort s).1.keys ≡ count k s.keys
    unfolding test
    test-count k s h =
        let names = names_once (tested_keys float s) in
        let counted = (count_all float answer names s (first_result float answer names) 0).0 in
        h counted.keys k ∙ ap (count k) (count_all-keys names s (first_result float answer names) 0)

  module _ {R I : Type 0} where
    -- The dialer behind these calls.
    pub after : List (Call R I) → Sorted float → Sorted float
    after [] s = s
    after (dials answer now ∷ calls) s = after calls (dial float sort answer now s).1
    after (tests answer ∷ calls) s = after calls (test float answer sort s).1

    after-count :
        (calls : List (Call R I)) (k : Bytes) (s : Sorted float)
        → IsPermuting sort
        → count k (after calls s).keys ≡ count k s.keys
    unfolding after
    after-count [] k s h = refl
    after-count (dials answer now ∷ calls) k s h =
        after-count calls k (dial float sort answer now s).1 h ∙ dial-count answer now k s h
    after-count (tests answer ∷ calls) k s h =
        after-count calls k (test float answer sort s).1 h ∙ test-count answer k s h

    module _ (answer : Bytes → Result R × ℕ) (now : ℕ) where
      -- A SortedDialer reaches what its dialers reach: whatever it has dialled, tested and sorted
      -- since it was made, its Dial succeeds exactly if the dialer under one of the names that it was
      -- made with does, if the sort permutes the names.
      pub dial-ok_iff :
          (tolerance : float.F) (names : List Bytes) (calls : List (Call R I))
          → IsPermuting sort
          → let s = after calls (new_sorted float tolerance names) in
            ((r : R) × ((dial float sort answer now s).0 ≡ ok r))
            ↔ ((k : Bytes) × (0 < count k names) × (r : R) × ((answer k).0 ≡ ok r))
      unfolding new_sorted
      dial-ok_iff tolerance names calls h = (forth, back)
        where
          s : Sorted float
          s = after calls (new_sorted float tolerance names)

          same : (k : Bytes) → count k s.keys ≡ count k names
          same k = after-count calls k (new_sorted float tolerance names) h

          forth :
              (r : R) × ((dial float sort answer now s).0 ≡ ok r)
              → (k : Bytes) × (0 < count k names) × (r : R) × ((answer k).0 ≡ ok r)
          forth (r, e) =
              let (k, there, q) =
                outcome-ok answer s.keys (errorf (codes "not dialer")) r
                  (sym (dial-outcome answer now s) ∙ e) in
              (k, omega (arith, same k), r, q)

          back :
              (k : Bytes) × (0 < count k names) × (r : R) × ((answer k).0 ≡ ok r)
              → (r : R) × ((dial float sort answer now s).0 ≡ ok r)
          back (k, there, r, q) = elim (Result-cases (dial float sort answer now s).0) [
            | inl (e, p) ↦ absurd (
                outcome-err answer s.keys (errorf (codes "not dialer")) e k r
                  (sym (dial-outcome answer now s) ∙ p) (omega (arith, same k)) q)
            | inr (r', p) ↦ (r', p)
          ]
