-- ===== src/Dialers/Sorted/Testing.antt =====
-- Test of SortedDialer: each dialer that it looks at is tried once, and counted behind the last of
-- them. What the dialer of a key comes to is a parameter, and so is the order of Go's map, the order
-- of the list here. A raw connection that was dialled is closed on every path.
pub mod Results
use Prim.Native.Nat.{◌/◌}
use gocs.Prelude.{
  ℕ, zero, suc, ◌+◌, ◌*◌, Bool, true, false, ◌||◌, Option, none, some, List, [], ◌∷◌, Bytes, codes,
  if◌then◌else◌, ◌==◌, bytes_eq, ltb,
}
use gocs.Errors.{Error, message}
use gocs.Dialers.Sorted.{Float, Sorted, tried, succeeded, failed, tested_keys}

-- What Test gets of one dialer: the result of a Tester, with its error and its Avg; a failing Dial;
-- or what the worker returned for the raw connection, and the time that it took.
pub data Answer (I : Type 0) : Type 0 where
  reports : Bytes → ℕ → I → Answer I
  refuses : Error → Answer I
  works : Option Error → ℕ → Answer I

-- `allFail[key]`, empty where the dialer did not fail.
abbrev pub fail_of : {I : Type 0} → Answer I → Bytes
fail_of (reports error avg i) = error
fail_of (refuses e) = message e
fail_of (works none used) = []
fail_of (works (some e) used) = message e

-- `allUsed[key]`, zero where it was not set.
abbrev pub used_of : {I : Type 0} → Answer I → ℕ
used_of (reports [] avg i) = avg
used_of (reports (b ∷ error) avg i) = 0
used_of (refuses e) = 0
used_of (works none used) = used
used_of (works (some e) used) = 0

-- `result.Error` behind this dialer.
abbrev pub error_after : {I : Type 0} → Answer I → Bytes → Bytes
error_after (reports [] avg i) last = last
error_after (reports (b ∷ error) avg i) last = b ∷ error
error_after (refuses e) last = message e
error_after (works none used) last = last
error_after (works (some e) used) last = message e

-- What a result holds of one dialer: its failure, its time, or the result of a Tester.
pub data Info (I : Type 0) : Type 0 where
  failure : Bytes → Info I
  took : ℕ → Info I
  inner : I → Info I

abbrev pub or_inner : {I : Type 0} → Answer I → Info I → Info I
or_inner (reports error avg i) info = inner i
or_inner (refuses e) info = info
or_inner (works e used) info = info

pub record TestResult (I : Type 0) : Type 0 where
  pub min_used : ℕ
  pub max_used : ℕ
  pub avg_used : ℕ
  pub success : ℕ
  pub fail : ℕ
  pub error : Bytes
  pub info : List (Bytes × Info I)

abbrev pub holds : Bytes → List Bytes → Bool
holds key [] = false
holds key (k ∷ ks) = (k == key) || holds key ks

-- The keys of the map allDialer: every name once.
unfoldable pub names_once : List Bytes → List Bytes
names_once [] = []
names_once (k ∷ ks) = let rest = names_once ks in if holds k rest then rest else k ∷ rest

-- The first loop: the errors.
unfoldable pub last_error : {I : Type 0} → (Bytes → Answer I) → List Bytes → Bytes → Bytes
last_error answer [] last = last
last_error answer (k ∷ ks) last = last_error answer ks (error_after (answer k) last)

-- The result and the time in total, behind a failure and behind a success.
abbrev pub add_failure : {I : Type 0} → Bytes → Answer I → TestResult I → TestResult I
add_failure key a r = record r {
  fail = suc r.fail;
  info = (key, or_inner a (failure (fail_of a))) ∷ r.info;
}

abbrev pub add_success : {I : Type 0} → Bytes → Answer I → TestResult I → TestResult I
add_success key a r = record r {
  success = suc r.success;
  min_used = if ltb (used_of a) r.min_used then used_of a else r.min_used;
  max_used = if ltb r.max_used (used_of a) then used_of a else r.max_used;
  info = (key, or_inner a (took (used_of a))) ∷ r.info;
}

abbrev pub is_empty : Bytes → Bool
is_empty [] = true
is_empty (b ∷ s) = false

module _ (float : Float) {I : Type 0} (answer : Bytes → Answer I) where
  -- The second loop: the counts, the result, and the time in total.
  unfoldable pub count_all :
      List Bytes → Sorted float → TestResult I → ℕ → Sorted float × TestResult I × ℕ
  unfolding succeeded failed
  count_all [] s r total = (s, r, total)
  count_all (k ∷ ks) s r total =
      let a = answer k in
      let bad = count_all ks (failed float k (tried float k s)) (add_failure k a r) total in
      let good =
        count_all ks (succeeded float k (used_of a / 1000000) (tried float k s)) (add_success k a r)
          (total + used_of a) in
      if is_empty (fail_of a) then good else bad

  -- `result`, as Test makes it, with the errors and a minute for Min.
  abbrev pub first_result : List Bytes → TestResult I
  first_result names = record {
    min_used = 60 * 1000000000;
    max_used = 0;
    avg_used = 0;
    success = 0;
    fail = 0;
    error = last_error answer names [];
    info = [];
  }

  abbrev pub averaged : ℕ → TestResult I → TestResult I
  averaged total r = record r {
    avg_used = elim r.success [ zero ↦ r.avg_used | suc n ↦ total / suc n ];
  }

  -- Test
  unfoldable pub test : (List Bytes → List Bytes) → Sorted float → TestResult I × Sorted float
  unfolding count_all last_error names_once tested_keys
  test sort s =
      let names = names_once (tested_keys float s) in
      let (t, r, total) = count_all names s (first_result names) 0 in
      (averaged total r, record t { keys = sort t.keys })
