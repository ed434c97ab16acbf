-- ===== src/Dialers/Skip.antt =====
-- SkipDialer, over matchers as functions on texts; `compile` is regexp.Compile with MatchString.
pub mod Matching
use gocs.Prelude.{
  ℕ, Bool, true, false, ◌||◌, ◌≡◌, refl, ap, ◌∙◌, List, [], ◌∷◌, ◌++◌, Bytes, if◌then◌else◌, arith,
  Bool-cases, inl, inr,
}
use gocs.Errors.{Error, Result, ok, err}
use gocs.Dialers.{PiperDialer}

abbrev pub Matcher : Type 0
Matcher = Bytes → Bool

abbrev cons_matcher : Matcher → Result (List Matcher) → Result (List Matcher)
cons_matcher m (err e) = err e
cons_matcher m (ok ms) = ok (m ∷ ms)

module _ (compile : Bytes → Result Matcher) where
  -- The loop of AddSkip, which breaks at the first text that is no pattern.
  unfoldable pub compile_all : List Bytes → Result (List Matcher)
  compile_all [] = ok []
  compile_all (skip ∷ skips) =
      let rest = compile_all skips in
      elim (compile skip) [ err e ↦ err e | ok m ↦ cons_matcher m rest ]

  -- AddSkip: the error, if any, and the matchers afterwards.
  unfoldable pub add_skip : List Bytes → List Matcher → Result (Unit {0}) × List Matcher
  unfolding compile_all
  add_skip skips matchers = elim (compile_all skips) [
    | err e ↦ (err e, matchers)
    | ok ms ↦ (ok tt, matchers ++ ms)
  ]

-- DialPiper
pub skip_dial : {S P : Type 0} → PiperDialer S P → PiperDialer S P → List Matcher → PiperDialer S P
skip_dial proxy direct [] uri s = proxy uri s
skip_dial proxy direct (m ∷ ms) uri s =
    let rest = skip_dial proxy direct ms uri s in if m uri then direct uri s else rest
