-- ===== src/Errors.antt =====
-- Go's `error` values and the pair `(value, err)` that a fallible function returns.
use gocs.Prelude.{◌++◌, Bytes, codes, ◌≡◌, refl, ◌⊎◌, inl, inr}

-- `errorf` is an error that the program makes from a text; `syntax` and `out_of_range` are those of
-- strconv; `external` is one that a library or the system returns, with its text.
pub data Error : Type 0 where
  errorf syntax out_of_range external : Bytes → Error
  eof : Error

-- err.Error()
unfoldable pub message : Error → Bytes
message (errorf text) = text
message (syntax text) = codes "strconv.ParseInt: parsing \"" ++ (text ++ codes "\": invalid syntax")
message (out_of_range text) =
    codes "strconv.ParseInt: parsing \"" ++ (text ++ codes "\": value out of range")
message (external text) = text
message eof = codes "EOF"

pub data Result {ℓ} (A : Type ℓ) : Type ℓ where
  ok : A → Result A
  err : Error → Result A

infixl 5 ◌>>=◌
abbrev pub ◌>>=◌ {ℓ κ} : {A : Type ℓ} {B : Type κ} → Result A → (A → Result B) → Result B
ok a >>= f = f a
err e >>= f = err e

-- To split on a computed result and keep the equation.
pub Result-cases {ℓ} :
    {A : Type ℓ} (r : Result A) → ((e : Error) × (r ≡ err e)) ⊎ ((a : A) × (r ≡ ok a))
Result-cases (ok a) = inr (a, refl)
Result-cases (err e) = inl (e, refl)
