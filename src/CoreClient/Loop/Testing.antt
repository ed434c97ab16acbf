-- ===== src/CoreClient/Loop/Testing.antt =====
-- How far the tests of procLoop are apart.
use gocs.Prelude.{ℕ, ◌+◌, ◌<◌, ◌≤◌, ◌≡◌, Option, none, some, List, [], ◌∷◌}
use gocs.CoreClient.Loop.{Loop}

-- Each test begins behind the end of the one before by more than the delay, and by no more than the
-- delay and a period.
abbrev pub Gaps : ℕ → ℕ → List (ℕ × ℕ) → Type 0
Gaps delay period [] = Unit
Gaps delay period ((b, e) ∷ []) = b ≤ e
Gaps delay period ((b, e) ∷ (b', e') ∷ ts) =
    (b ≤ e) × (e' + delay < b) × (b ≤ e' + delay + period) × Gaps delay period ((b', e') ∷ ts)

-- The last test ended no longer ago than the delay, and testLast is its end; before the first there
-- is none.
abbrev pub Recent : ℕ → Option ℕ → ℕ → List (ℕ × ℕ) → Type 0
Recent delay last clock [] = last ≡ none
Recent delay last clock ((b, e) ∷ ts) = (last ≡ some e) × (clock ≤ e + delay)

module _ {D : Type 0} (test : ℕ → D → D) (period : ℕ) where
  -- The tests of a loop so far, and its last one.
  abbrev pub IsPaced : ℕ → Loop D → Type 0
  IsPaced delay l =
      (l.test_delay ≡ delay) × Gaps delay period l.tests × Recent delay l.test_last l.clock l.tests
