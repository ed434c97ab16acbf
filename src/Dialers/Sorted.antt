-- ===== src/Dialers/Sorted.antt =====
-- SortedDialer: dialers by their names, tried in an order that follows their error rates and
-- average times. float32 is a parameter, a type with the operations that the code uses; the sort
-- is one too, what sort.Sort makes of the names under Less. Go's maps of counts read 0 for a
-- missing key, and are functions here; times and counts are not negative and do not wrap.
pub mod Counting
pub mod Ordering
pub mod Testing
pub mod Reaching
use Prim.Native.Nat.{◌/◌}
use gocs.Prelude.{
  ℕ, zero, suc, ◌+◌, ◌-◌, Bool, true, false, not, ◌&&◌, ◌||◌, Option, none, some, List, [], ◌∷◌,
  ◌≡◌, refl, Bytes, codes, if◌then◌else◌, ◌==◌, bytes_eq, ltb, leb, eqb, length, take,
}
use gocs.Errors.{Error, errorf, Result, ok, err}

-- float32(a) / float32(b), the subtraction and the order.
pub record Float : Type 1 where
  pub F : Type 0
  pub quotient : ℕ → ℕ → F
  pub minus : F → F → F
  pub less : F → F → Bool

-- m[key] = v
abbrev pub update {ℓ} : {A : Type ℓ} → (Bytes → A) → Bytes → A → Bytes → A
update m key v j = if key == j then v else m j

module _ (float : Float) where
  open float use {F, quotient, minus, less}

  pub record Sorted : Type 0 where
    pub keys : List Bytes
    pub avg_time : Bytes → ℕ
    pub used_time : Bytes → ℕ
    pub try_count : Bytes → ℕ
    pub err_count : Bytes → ℕ
    pub err_rate : Bytes → F
    pub sorting : Bool
    pub sort_time : ℕ
    pub rate_tolerance : F
    pub sort_delay : ℕ
    pub test_max : ℕ

  -- NewSortedDialer, of dialers with these names, and 0.15.
  unfoldable pub new_sorted : F → List Bytes → Sorted
  new_sorted tolerance names = record {
    keys = names;
    avg_time = λ key. 0;
    used_time = λ key. 0;
    try_count = λ key. 0;
    err_count = λ key. 0;
    err_rate = λ key. quotient 0 1;
    sorting = false;
    sort_time = 0;
    rate_tolerance = tolerance;
    sort_delay = 5000;
    test_max = 3;
  }

  -- `s.tryCount[key]++`
  abbrev pub tried : Bytes → Sorted → Sorted
  tried key s = record s { try_count = update s.try_count key (suc (s.try_count key)) }

  abbrev pub rated : Bytes → Sorted → Sorted
  rated key s = record s {
    err_rate = update s.err_rate key (quotient (s.err_count key) (s.try_count key));
  }

  -- What follows a success that took this long.
  pub succeeded : Bytes → ℕ → Sorted → Sorted
  succeeded key used s =
      let total = s.used_time key + used in
      rated key (record s {
        used_time = update s.used_time key total;
        avg_time = update s.avg_time key (total / (s.try_count key - s.err_count key));
      })

  pub failed : Bytes → Sorted → Sorted
  failed key s = rated key (record s { err_count = update s.err_count key (suc (s.err_count key)) })

  -- The loop of Dial over the keys: `answer` is what the dialer of a key returns, and how long it
  -- takes. The error is that of the last dialer.
  pub dial_keys :
      {R : Type 0} → (Bytes → Result R × ℕ) → List Bytes → Error → Sorted → Result R × Sorted
  unfolding succeeded failed
  dial_keys answer [] last s = (err last, s)
  dial_keys answer (key ∷ keys) last s =
      let s' = tried key s in
      elim (answer key).0 [
        | ok raw ↦ (ok raw, succeeded key (answer key).1 s')
        | err e ↦ dial_keys answer keys e (failed key s')
      ]

  -- The start of a sort at the end of Dial: CompareAndSwap first, then the test of the time. The
  -- goroutine that sorts runs to its end here.
  pub trigger_sort : (List Bytes → List Bytes) → ℕ → Sorted → Sorted
  trigger_sort sort now s =
      if s.sorting
      then s
      else if ltb s.sort_delay (now - s.sort_time)
      then record s { keys = sort s.keys; sorting = false }
      else record s { sorting = true }

  pub dial :
      {R : Type 0}
      → (List Bytes → List Bytes)
      → (Bytes → Result R × ℕ)
      → ℕ
      → Sorted
      → Result R × Sorted
  unfolding dial_keys trigger_sort
  dial sort answer now s =
      let (r, s') = dial_keys answer s.keys (errorf (codes "not dialer")) s in
      (r, trigger_sort sort now s')

  -- Less, of the keys at two places.
  unfoldable pub less_keys : Sorted → Bytes → Bytes → Bool
  less_keys s i j =
      if less (s.err_rate i) (s.err_rate j)
      then less s.rate_tolerance (minus (s.err_rate j) (s.err_rate i))
        || ltb (s.avg_time i) (s.avg_time j)
      else less (minus (s.err_rate i) (s.err_rate j)) s.rate_tolerance
        && ltb (s.avg_time i) (s.avg_time j)

  -- The keys that Test looks at.
  unfoldable pub tested_keys : Sorted → List Bytes
  tested_keys s =
      if ltb 0 s.test_max && ltb s.test_max (length s.keys) then take s.test_max s.keys else s.keys
