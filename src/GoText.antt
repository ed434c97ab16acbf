-- ===== src/GoText.antt =====
-- What the program uses of Go's packages strings and strconv, over byte strings.
pub mod Decimal
pub mod Splitting
use gocs.Prelude.{
  ℕ, zero, suc, ◌+◌, ◌-◌, ◌*◌, ◌≤◌, ◌≡◌, refl, Bool, true, false, ◌&&◌, ◌||◌, Option, none, some,
  List, [], ◌∷◌, ◌++◌, Bytes, codes, leb, ltb, eqb, if◌then◌else◌, has_prefix,
}
use mathlib.Core.List.{reverse}

-- Put one byte at the front of the first piece.
abbrev pub push_byte : ℕ → List Bytes → List Bytes
push_byte c [] = (c ∷ []) ∷ []
push_byte c (p ∷ ps) = (c ∷ p) ∷ ps

-- strings.Split(s, sep) for a separator of one byte, given first.
unfoldable pub split : ℕ → Bytes → List Bytes
split sep [] = [] ∷ []
split sep (c ∷ s) = let rest = split sep s in if eqb c sep then [] ∷ rest else push_byte c rest

-- strings.SplitN(s, sep, 2): the text before the first separator, and what follows it, if any.
unfoldable pub split_two : ℕ → Bytes → Bytes × Option Bytes
split_two sep [] = ([], none)
split_two sep (c ∷ s) =
    let rest = split_two sep s in if eqb c sep then ([], some s) else (c ∷ rest.0, rest.1)

-- strings.Join(parts, sep).
unfoldable pub join : Bytes → List Bytes → Bytes
join sep [] = []
join sep (p ∷ []) = p
join sep (p ∷ q ∷ ps) = p ++ (sep ++ join sep (q ∷ ps))

unfoldable pub trim_left : (ℕ → Bool) → Bytes → Bytes
trim_left cut [] = []
trim_left cut (c ∷ s) = let rest = trim_left cut s in if cut c then rest else c ∷ s

-- strings.Trim(s, cutset) and strings.TrimSpace(s), the set given as a test on bytes.
unfoldable pub trim : (ℕ → Bool) → Bytes → Bytes
unfolding trim_left
trim cut s = reverse (trim_left cut (reverse (trim_left cut s)))

-- strings.Contains(s, sub).
unfoldable pub contains : Bytes → Bytes → Bool
unfolding has_prefix
contains [] sub = has_prefix sub []
contains (c ∷ s) sub = has_prefix sub (c ∷ s) || contains s sub
