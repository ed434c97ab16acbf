-- ===== src/GoText/Splitting.antt =====
-- Splitting undoes joining, for pieces that do not hold the separator.
use gocs.Prelude.{ℕ, ◌≡◌, ◌≢◌, refl, ap, none, some, List, [], ◌∷◌, ◌++◌, Bytes, arith, All, ◌∙◌}
use gocs.GoText.{split, split_two, join}

-- No byte of the text is `sep`.
abbrev pub Lacks : ℕ → Bytes → Type 0
Lacks sep = All (λ c. c ≢ sep)

pub split-Lacks : (sep : ℕ) (s : Bytes) → Lacks sep s → split sep s ≡ s ∷ []
unfolding split
split-Lacks sep [] h = refl
split-Lacks sep (c ∷ s) h = ground (arith, split-Lacks sep s)

pub split-append :
    (sep : ℕ) (s rest : Bytes) → Lacks sep s → split sep (s ++ sep ∷ rest) ≡ s ∷ split sep rest
unfolding split
split-append sep [] rest h = ground arith
split-append sep (c ∷ s) rest h = ground (arith, split-append sep s rest)

-- strings.Split gives back the pieces that strings.Join put together.
pub split-join :
    (sep : ℕ) (p : Bytes) (ps : List Bytes)
    → All (Lacks sep) (p ∷ ps)
    → split sep (join (sep ∷ []) (p ∷ ps)) ≡ p ∷ ps
unfolding join
split-join sep p [] h = split-Lacks sep p h.0
split-join sep p (q ∷ ps) h =
    split-append sep p (join (sep ∷ []) (q ∷ ps)) h.0 ∙ ap (◌∷◌ p) (split-join sep q ps h.1)

pub split_two-Lacks : (sep : ℕ) (s : Bytes) → Lacks sep s → split_two sep s ≡ (s, none)
unfolding split_two
split_two-Lacks sep [] h = refl
split_two-Lacks sep (c ∷ s) h = ground (arith, split_two-Lacks sep s)

pub split_two-append :
    (sep : ℕ) (s rest : Bytes) → Lacks sep s → split_two sep (s ++ sep ∷ rest) ≡ (s, some rest)
unfolding split_two
split_two-append sep [] rest h = ground arith
split_two-append sep (c ∷ s) rest h = ground (arith, split_two-append sep s rest)
