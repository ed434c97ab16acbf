-- ===== src/Dialers/Sorted/Counting.antt =====
-- The order in which Dial tries the dialers, and what it counts.
use gocs.Prelude.{
  ℕ, ◌+◌, ◌<◌, ◌≡◌, refl, ◌∙◌, false, List, [], ◌∷◌, Bytes, codes, if◌then◌else◌, ◌==◌, bytes_eq,
  beq_bytes_iff, arith,
}
use gocs.Errors.{Error, errorf, Result, ok, err}
use gocs.Dialers.Sorted.{Float, Sorted, tried, succeeded, failed, dial_keys, trigger_sort, dial}

abbrev pub count : Bytes → List Bytes → ℕ
count k [] = 0
count k (j ∷ js) = (if j == k then 1 else 0) + count k js

module _ (float : Float) where
  pub succeeded-counts :
      (key k : Bytes) (used : ℕ) (s : Sorted float)
      → ((succeeded float key used (tried float key s)).try_count k
          ≡ s.try_count k + count k (key ∷ []))
        × ((succeeded float key used (tried float key s)).err_count k ≡ s.err_count k)
  unfolding succeeded
  succeeded-counts key k used s = ground (arith, beq_bytes_iff key k)

  pub failed-counts :
      (key k : Bytes) (s : Sorted float)
      → ((failed float key (tried float key s)).try_count k ≡ s.try_count k + count k (key ∷ []))
        × ((failed float key (tried float key s)).err_count k ≡ s.err_count k + count k (key ∷ []))
  unfolding failed
  failed-counts key k s = ground (arith, beq_bytes_iff key k)

module _ {R : Type 0} (answer : Bytes → Result R × ℕ) where
  -- The keys up to the first whose dialer succeeds, with it, and without it.
  abbrev pub attempted : List Bytes → List Bytes
  attempted [] = []
  attempted (k ∷ ks) = elim (answer k).0 [ ok r ↦ k ∷ [] | err e ↦ k ∷ attempted ks ]

  abbrev pub rejected : List Bytes → List Bytes
  rejected [] = []
  rejected (k ∷ ks) = elim (answer k).0 [ ok r ↦ [] | err e ↦ k ∷ rejected ks ]

  -- The first success, or the last error.
  abbrev pub outcome : List Bytes → Error → Result R
  outcome [] last = err last
  outcome (k ∷ ks) last = elim (answer k).0 [ ok r ↦ ok r | err e ↦ outcome ks e ]

  module _ (float : Float) where
    -- What Dial returns from this state, and what it counts for the key k.
    abbrev pub Counts : List Bytes → Error → Sorted float → Bytes → Type 0
    Counts keys last s k =
        ((dial_keys float answer keys last s).0 ≡ outcome keys last)
        × ((dial_keys float answer keys last s).1.try_count k
            ≡ s.try_count k + count k (attempted keys))
        × ((dial_keys float answer keys last s).1.err_count k
            ≡ s.err_count k + count k (rejected keys))

    -- Dial returns the first success in the order of the keys, or else the last error; it counts a
    -- try for each dialer up to that success, and an error for each one before it.
    pub dial_keys-Counts :
        (keys : List Bytes) (last : Error) (s : Sorted float) (k : Bytes) → Counts keys last s k
    unfolding dial_keys
    dial_keys-Counts [] last s k = (refl, omega arith, omega arith)
    dial_keys-Counts (key ∷ keys) last s k =
        go (answer key).0 refl
          (λ e. dial_keys-Counts keys e (failed float key (tried float key s)) k)
      where
        go :
            (r : Result R)
            → (answer key).0 ≡ r
            → ((e : Error) → Counts keys e (failed float key (tried float key s)) k)
            → Counts (key ∷ keys) last s k
        go (ok r) q ih =
            let c = succeeded-counts float key k (answer key).1 s in
            rw (q, dial_keys, outcome, attempted, rejected) (refl, c.0, c.1 ∙ omega arith)
        go (err e) q ih =
            let c = failed-counts float key k s in
            let h = ih e in
            rw (q, dial_keys, outcome, attempted, rejected)
              (h.0, h.1 ∙ omega (arith, c.0), h.2 ∙ omega (arith, c.1))

    pub dial_keys-keys :
        (keys : List Bytes) (last : Error) (s : Sorted float)
        → ((dial_keys float answer keys last s).1.keys ≡ s.keys)
          × ((dial_keys float answer keys last s).1.sorting ≡ s.sorting)
          × ((dial_keys float answer keys last s).1.sort_time ≡ s.sort_time)
          × ((dial_keys float answer keys last s).1.sort_delay ≡ s.sort_delay)
    unfolding dial_keys succeeded failed
    dial_keys-keys [] last s = (refl, refl, refl, refl)
    dial_keys-keys (key ∷ keys) last s =
        go (answer key).0 refl (λ e. dial_keys-keys keys e (failed float key (tried float key s)))
      where
        Kept : Error → Sorted float → List Bytes → Type 0
        Kept e t ks =
            ((dial_keys float answer ks e t).1.keys ≡ s.keys)
            × ((dial_keys float answer ks e t).1.sorting ≡ s.sorting)
            × ((dial_keys float answer ks e t).1.sort_time ≡ s.sort_time)
            × ((dial_keys float answer ks e t).1.sort_delay ≡ s.sort_delay)

        go :
            (r : Result R)
            → (answer key).0 ≡ r
            → ((e : Error) → Kept e (failed float key (tried float key s)) keys)
            → Kept last s (key ∷ keys)
        go (ok r) q ih = rw (q, dial_keys) (refl, refl, refl, refl)
        go (err e) q ih = rw (q, dial_keys) (ih e)

    -- The delay between sorts is not kept: while the time of the last sort is 0 and no sort is
    -- running, every dial later than SortDelay on the clock sorts the keys, and leaves that time 0
    -- and no sort running.
    pub dial-sorts_always :
        (sort : List Bytes → List Bytes) (now : ℕ) (s : Sorted float)
        → s.sort_time ≡ 0
        → s.sorting ≡ false
        → s.sort_delay < now
        → ((dial float sort answer now s).1.keys ≡ sort s.keys)
          × ((dial float sort answer now s).1.sort_time ≡ 0)
          × ((dial float sort answer now s).1.sorting ≡ false)
    unfolding dial trigger_sort
    dial-sorts_always sort now s z free late =
        let k = dial_keys-keys s.keys (errorf (codes "not dialer")) s in
        (
          ground (arith, k.0, k.1, k.2, k.3),
          ground (arith, k.1, k.2, k.3),
          ground (arith, k.1, k.2, k.3),
        )
