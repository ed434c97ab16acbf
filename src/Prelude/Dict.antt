-- ===== src/Prelude/Dict.antt =====
-- A Go map as an association list without repeated keys. `m[k]` is `lookup`, `m[k] = v` is
-- `insert`, `delete(m, k)` is `delete`. A `range` over a map visits the entries in the order of the
-- list; since Go's order is unspecified, theorems about a `range` hold for every list.
use gocs.Prelude.Tests.{Eq, ◌==◌, if◌then◌else◌, Bool-cases}
use gocs.Prelude.Lists.{length, All}
use mathlib.Core.Logic.{inl, inr}
use Prim.Native.Nat.{◌+◌, ◌≤◌, ◌<◌}
use mathlib.Core.Path.{◌≡◌, refl}
use mathlib.Core.Option.{Option, none, some}
use mathlib.Core.List.{List, [], ◌∷◌}
use native.Mathlib.Omega.{arith}

abbrev pub Dict {ℓ κ} : Type ℓ → Type κ → Type (ℓ ⊔ κ)
Dict K V = List (K × V)

module _ {ℓ κ} {K : Type ℓ} {V : Type κ} ⦃e : Eq K⦄ where
  abbrev pub lookup : K → Dict K V → Option V
  lookup k [] = none
  lookup k ((j, v) ∷ m) = if j == k then some v else lookup k m

  abbrev pub insert : K → V → Dict K V → Dict K V
  insert k v [] = (k, v) ∷ []
  insert k v ((j, w) ∷ m) = if j == k then (k, v) ∷ m else (j, w) ∷ insert k v m

  abbrev pub delete : K → Dict K V → Dict K V
  delete k [] = []
  delete k ((j, w) ∷ m) = if j == k then delete k m else (j, w) ∷ delete k m

  pub lookup-insert :
      (k j : K) (v : V) (m : Dict K V)
      → lookup j (insert k v m) ≡ (if k == j then some v else lookup j m)
  lookup-insert k j v [] = refl
  lookup-insert k j v ((i, w) ∷ m) =
      ground (arith, e.equal_iff k j, e.equal_iff i k, e.equal_iff i j, lookup-insert k j v m)

  pub lookup-delete :
      (k j : K) (m : Dict K V) → lookup j (delete k m) ≡ (if k == j then none else lookup j m)
  lookup-delete k j [] = ground arith
  lookup-delete k j ((i, w) ∷ m) =
      ground (arith, e.equal_iff k j, e.equal_iff i k, e.equal_iff i j, lookup-delete k j m)

  pub length-insert-le : (k : K) (v : V) (m : Dict K V) → length (insert k v m) ≤ length m + 1
  length-insert-le k v [] = omega arith
  length-insert-le k v ((i, w) ∷ m) = ground (arith, length-insert-le k v m)

  -- Writing to a key that is there changes no length.
  pub length-insert_old :
      (k : K) (v w : V) (m : Dict K V) → lookup k m ≡ some w → length (insert k v m) ≡ length m
  length-insert_old k v w [] h = absurd (ground arith)
  length-insert_old k v w ((i, x) ∷ m) h = ground (arith, length-insert_old k v w m)

  pub length-delete-le : (k : K) (m : Dict K V) → length (delete k m) ≤ length m
  length-delete-le k [] = omega arith
  length-delete-le k ((i, w) ∷ m) = ground (arith, length-delete-le k m)

  -- Deleting a key that is there makes the map shorter.
  pub length-delete-lt :
      (k : K) (v : V) (m : Dict K V) → lookup k m ≡ some v → length (delete k m) < length m
  length-delete-lt k v [] h = absurd (ground arith)
  length-delete-lt k v ((i, w) ∷ m) h = ground (arith, length-delete-lt k v m, length-delete-le k m)

  -- No key is repeated.
  abbrev pub Distinct : Dict K V → Type κ
  Distinct [] = Unit
  Distinct ((k, v) ∷ m) = (lookup k m ≡ none) × Distinct m

  pub Distinct-insert : (k : K) (v : V) (m : Dict K V) → Distinct m → Distinct (insert k v m)
  Distinct-insert k v [] d = (refl, tt)
  Distinct-insert k v ((i, w) ∷ m) d =
      ground
        (arith, Distinct-insert k v m d.1, e.equal_iff i k, e.equal_iff k i, lookup-insert k i v m)

  pub Distinct-delete : (k : K) (m : Dict K V) → Distinct m → Distinct (delete k m)
  Distinct-delete k [] d = tt
  Distinct-delete k ((i, w) ∷ m) d = ground (arith, Distinct-delete k m d.1, lookup-delete k i m)

  module _ {ι} (P : K × V → Type ι) where
    pub All-insert : (k : K) (v : V) (m : Dict K V) → P (k, v) → All P m → All P (insert k v m)
    All-insert k v [] p h = (p, tt)
    All-insert k v ((i, w) ∷ m) p h = elim (Bool-cases (i == k)) [
      | inl same ↦ rw same (p, h.1)
      | inr other ↦ rw other (h.0, All-insert k v m p h.1)
    ]

    pub All-delete : (k : K) (m : Dict K V) → All P m → All P (delete k m)
    All-delete k [] h = tt
    All-delete k ((i, w) ∷ m) h = elim (Bool-cases (i == k)) [
      | inl same ↦ rw same (All-delete k m h.1)
      | inr other ↦ rw other (h.0, All-delete k m h.1)
    ]
