-- ===== src/Prelude/Maps.antt =====
-- A Go map as a set of entries: association lists up to what they hold under each key. The order of
-- an association list, and how often it repeats a key, is forgotten.
use mathlib.Core.Path.{◌≡◌}
use mathlib.Core.Quot
use mathlib.Core.Quot.{Quot, Quot-set}
use native.Mathlib.Omega.{arith}
use gocs.Prelude.Tests.{Eq}
use gocs.Prelude.Dict.{Dict, lookup, insert, delete, lookup-insert, lookup-delete}

module _ {ℓ κ} {K : Type ℓ} {V : Type κ} ⦃e : Eq K⦄ where
  -- Two lists hold the same under each key.
  abbrev pub SameEntries : Dict K V → Dict K V → Type (ℓ ⊔ κ)
  SameEntries m n = (k : K) → lookup k m ≡ lookup k n

  pub SameEntries-insert :
      (k : K) (v : V) (m n : Dict K V) → SameEntries m n → SameEntries (insert k v m) (insert k v n)
  SameEntries-insert k v m n h j = ground (arith, h j, lookup-insert k j v m, lookup-insert k j v n)

  pub SameEntries-delete :
      (k : K) (m n : Dict K V) → SameEntries m n → SameEntries (delete k m) (delete k n)
  SameEntries-delete k m n h j = ground (arith, h j, lookup-delete k j m, lookup-delete k j n)

module _ {ℓ κ} (K : Type ℓ) (V : Type κ) ⦃e : Eq K⦄ where
  abbrev pub Map : Type (ℓ ⊔ κ)
  Map = Quot (SameEntries {K = K} {V = V})

module _ {ℓ κ} {K : Type ℓ} {V : Type κ} ⦃e : Eq K⦄ where
  abbrev pub map_of : Dict K V → Map K V
  map_of = Quot.mk

  unfoldable pub put : K → V → Map K V → Map K V
  put k v =
      Quot.lift Quot-set (λ m. map_of (insert k v m))
        λ m n h. Quot.sound (SameEntries-insert k v m n h)

  unfoldable pub erase : K → Map K V → Map K V
  erase k =
      Quot.lift Quot-set (λ m. map_of (delete k m)) λ m n h. Quot.sound (SameEntries-delete k m n h)
