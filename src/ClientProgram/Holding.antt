-- ===== src/ClientProgram/Holding.antt =====
-- The resources of a client that takes one more.
use gocs.Prelude.{ℕ, ap, ◌≡◌, refl, eqb, ◌||◌, List, [], ◌∷◌, ◌++◌, arith}
use gocs.Prelude.Keys.{elem, elem-append}
use gocs.ClientProgram.{Client}
use gocs.ClientProgram.Stopping.{resources, IsHeld}

pub elem-middle :
    (r n : ℕ) (xs ys : List ℕ) → elem r (xs ++ n ∷ ys) ≡ (eqb n r || elem r (xs ++ ys))
unfolding elem
elem-middle r n [] ys = refl
elem-middle r n (x ∷ xs) ys = ground (arith, elem-middle r n xs ys)

pub elem-second :
    (r n : ℕ) (xs ys zs : List ℕ)
    → elem r (xs ++ (ys ++ n ∷ zs)) ≡ (eqb n r || elem r (xs ++ (ys ++ zs)))
elem-second r n xs ys zs =
    ground
      (arith, elem-append r xs (ys ++ n ∷ zs), elem-middle r n ys zs, elem-append r xs (ys ++ zs))

pub elem-third :
    (r n : ℕ) (xs ys zs ws : List ℕ)
    → elem r (xs ++ (ys ++ (zs ++ n ∷ ws))) ≡ (eqb n r || elem r (xs ++ (ys ++ (zs ++ ws))))
elem-third r n xs ys zs ws = ground (
  arith,
  elem-append r xs (ys ++ (zs ++ n ∷ ws)),
  elem-second r n ys zs ws,
  elem-append r xs (ys ++ (zs ++ ws)),
)

-- A resource that is taken into a field.
pub IsHeld-take :
    (c d : Client)
    → d.opened ≡ c.next ∷ c.opened
    → d.closed ≡ c.closed
    → ((r : ℕ) → elem r (resources d) ≡ (eqb c.next r || elem r (resources c)))
    → IsHeld c
    → IsHeld d
unfolding elem
IsHeld-take c d o k more h r old = ground (arith, more r, h r, ap (elem r) o, ap (elem r) k)
