-- ===== src/Dialers/Skip/Matching.antt =====
-- AddSkip is all or nothing, and a target that any pattern matches skips the proxy.
use gocs.Prelude.{
  Bool, false, ◌||◌, ◌≡◌, refl, List, [], ◌∷◌, ◌++◌, Bytes, if◌then◌else◌, arith, Bool-cases, inl,
  inr, ◌⊎◌,
}
use gocs.Errors.{Error, Result, ok, err}
use gocs.Dialers.{PiperDialer}
use gocs.Dialers.Skip.{Matcher, compile_all, add_skip, skip_dial}

abbrev pub any_match : List Matcher → Bytes → Bool
any_match [] uri = false
any_match (m ∷ ms) uri = m uri || any_match ms uri

-- Every text is a pattern, and the matchers are theirs.
pub data Compiled (compile : Bytes → Result Matcher) : List Bytes → List Matcher → Type 0 where
  done : Compiled compile [] []
  next :
      {skip : Bytes} {m : Matcher} {skips : List Bytes} {ms : List Matcher}
      → compile skip ≡ ok m
      → Compiled compile skips ms
      → Compiled compile (skip ∷ skips) (m ∷ ms)

module _ (compile : Bytes → Result Matcher) where
  compile_all-cases :
      (skips : List Bytes)
      → ((ms : List Matcher) × (compile_all compile skips ≡ ok ms) × Compiled compile skips ms)
        ⊎ ((e : Error) × (compile_all compile skips ≡ err e))
  unfolding compile_all
  compile_all-cases [] = inl ([], refl, done)
  compile_all-cases (skip ∷ skips) = go (compile skip) refl (compile_all-cases skips)
    where
      go :
          (r : Result Matcher)
          → compile skip ≡ r
          → ((ms : List Matcher) × (compile_all compile skips ≡ ok ms) × Compiled compile skips ms)
            ⊎ ((e : Error) × (compile_all compile skips ≡ err e))
          → ((ms : List Matcher) × (compile_all compile (skip ∷ skips) ≡ ok ms)
              × Compiled compile (skip ∷ skips) ms)
            ⊎ ((e : Error) × (compile_all compile (skip ∷ skips) ≡ err e))
      go (err e) q ih = inr (e, rw (q, compile_all))
      go (ok m) q (inl (ms, e, c)) = inl (m ∷ ms, rw (q, compile_all, e), next q c)
      go (ok m) q (inr (e, p)) = inr (e, rw (q, compile_all, p))

  -- AddSkip either appends the matchers of all the texts, in order, or, where one of them is no
  -- pattern, reports an error and leaves the matchers as they were.
  pub add_skip_lem :
      (skips : List Bytes) (matchers : List Matcher)
      → ((ms : List Matcher) × Compiled compile skips ms
          × (add_skip compile skips matchers ≡ (ok tt, matchers ++ ms)))
        ⊎ ((e : Error) × (add_skip compile skips matchers ≡ (err e, matchers)))
  unfolding add_skip
  add_skip_lem skips matchers = elim (compile_all-cases skips) [
    | inl (ms, e, c) ↦ inl (ms, c, rw (e, add_skip))
    | inr (x, e) ↦ inr (x, rw (e, add_skip))
  ]

any_match-append :
    (ms ns : List Matcher) (uri : Bytes)
    → any_match (ms ++ ns) uri ≡ (any_match ms uri || any_match ns uri)
any_match-append [] ns uri = refl
any_match-append (m ∷ ms) ns uri = ground (arith, any_match-append ms ns uri)

module _ {S P : Type 0} (proxy direct : PiperDialer S P) where
  -- DialPiper goes directly exactly if some matcher matches the target, and else by the proxy.
  pub skip_dial_lem :
      (ms : List Matcher) (uri : Bytes) (s : S)
      → skip_dial proxy direct ms uri s ≡ (if any_match ms uri then direct uri s else proxy uri s)
  unfolding skip_dial
  skip_dial_lem [] uri s = refl
  skip_dial_lem (m ∷ ms) uri s = elim (Bool-cases (m uri)) [
    | inl hit ↦ rw hit
    | inr miss ↦ rw miss (skip_dial_lem ms uri s)
  ]
