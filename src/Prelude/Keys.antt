-- ===== src/Prelude/Keys.antt =====
-- A set of addresses of objects, as a list: the key set of a `map[string]*ChannelConn`, where an
-- object's key is its printed address.
use Prim.Native.Nat.{ℕ, ◌+◌}
use mathlib.Core.Path.{◌≡◌, refl}
use mathlib.Core.Bool.{Bool, false, ◌&&◌, ◌||◌, not}
use mathlib.Core.List.{List, [], ◌∷◌, ◌++◌}
use native.Mathlib.Omega.{arith}
use gocs.Prelude.Tests.{eqb, eqb_iff, if◌then◌else◌}
use gocs.Prelude.Lists.{length}

unfoldable pub elem : ℕ → List ℕ → Bool
elem r [] = false
elem r (x ∷ xs) = eqb x r || elem r xs

-- m[k] = …
unfoldable pub add : ℕ → List ℕ → List ℕ
unfolding elem
add k xs = if elem k xs then xs else k ∷ xs

-- delete(m, k)
unfoldable pub remove : ℕ → List ℕ → List ℕ
remove k [] = []
remove k (x ∷ xs) = let rest = remove k xs in if eqb x k then rest else x ∷ rest

pub elem-append : (r : ℕ) (xs ys : List ℕ) → elem r (xs ++ ys) ≡ (elem r xs || elem r ys)
unfolding elem
elem-append r [] ys = refl
elem-append r (x ∷ xs) ys = ground (arith, elem-append r xs ys)

pub elem-add : (j k : ℕ) (xs : List ℕ) → elem j (add k xs) ≡ (eqb k j || elem j xs)
unfolding add elem
elem-add j k xs = ground (arith, eqb_iff k j)

pub elem-remove : (j k : ℕ) (xs : List ℕ) → elem j (remove k xs) ≡ (not (eqb k j) && elem j xs)
unfolding elem remove
elem-remove j k [] = ground arith
elem-remove j k (x ∷ xs) = ground (arith, elem-remove j k xs, eqb_iff k j, eqb_iff x k, eqb_iff x j)

pub remove-none : (k : ℕ) (xs : List ℕ) → elem k xs ≡ false → remove k xs ≡ xs
unfolding elem remove
remove-none k [] h = refl
remove-none k (x ∷ xs) h = ground (arith, remove-none k xs)

pub remove-add : (k : ℕ) (xs : List ℕ) → elem k xs ≡ false → remove k (add k xs) ≡ xs
unfolding add remove
remove-add k xs h = ground (arith, remove-none k xs, eqb_iff k k)

pub length-add_new : (k : ℕ) (xs : List ℕ) → elem k xs ≡ false → length (add k xs) ≡ length xs + 1
unfolding add
length-add_new k xs h = ground arith
