-- ===== src/GoText/Decimal/RoundTrip.antt =====
-- Decimal forms read back.
use Prim.Native.Nat.{◌/◌, ◌%◌, ◌^◌}
use mathlib.Core.List.{append_assoc, append-nil}
use gocs.Prelude.{
  ℕ, zero, suc, ◌+◌, ◌-◌, ◌*◌, ◌≤◌, ◌<◌, ◌≡◌, refl, sym, ap, ◌∙◌, [], ◌∷◌, ◌++◌, Bytes, ltb, arith,
  Bool-cases, inl, inr, All, All-append,
}
use gocs.Errors.{ok}
use gocs.GoText.Decimal.{pos, scan_uint, parse_int, digits_fuel, show_nat}

scan_digit :
    (whole : Bytes) (n d : ℕ) (s : Bytes)
    → d < 10
    → n * 10 + d < 2 ^ 32
    → scan_uint whole n ((b'0' + d) ∷ s) ≡ scan_uint whole (n * 10 + d) s
unfolding scan_uint
scan_digit whole n d s h k = let e : b'0' + d - b'0' ≡ d = omega arith in ground (arith, e)

scan-digits_fuel :
    (f n : ℕ) (whole rest : Bytes)
    → n < f
    → n < 2 ^ 32
    → scan_uint whole 0 (digits_fuel f n ++ rest) ≡ scan_uint whole n rest
unfolding digits_fuel
scan-digits_fuel zero n whole rest h k = elim h [ ]
scan-digits_fuel (suc f) n whole rest h k = elim (Bool-cases (ltb n 10)) [
  | inl small ↦ rw small (
      scan_digit whole 0 n rest (ground arith) (omega arith)
      ∙ ap (λ m. scan_uint whole m rest) (omega arith))
  | inr big ↦
      rw (big, append_assoc)
        (scan-digits_fuel f (n / 10) whole ((b'0' + n % 10) ∷ rest) (ground arith) (omega arith)
          ∙ scan_digit whole (n / 10) (n % 10) rest (omega arith) (omega arith)
          ∙ ap (λ m. scan_uint whole m rest) (omega arith))
]

-- A byte of a decimal form.
abbrev pub IsDigit : ℕ → Type 0
IsDigit c = (b'0' ≤ c) × (c ≤ b'9')

digits_fuel-IsDigit : (f n : ℕ) → All IsDigit (digits_fuel f n)
unfolding digits_fuel
digits_fuel-IsDigit zero n = tt
digits_fuel-IsDigit (suc f) n = elim (Bool-cases (ltb n 10)) [
  | inl small ↦ rw small ((omega arith, ground arith), tt)
  | inr big ↦ rw big (
      All-append IsDigit (digits_fuel f (n / 10)) ((b'0' + n % 10) ∷ [])
        (digits_fuel-IsDigit f (n / 10)) ((omega arith, omega arith), tt))
]

pub show_nat-IsDigit : (n : ℕ) → All IsDigit (show_nat n)
unfolding show_nat
show_nat-IsDigit n = digits_fuel-IsDigit (suc n) n

append_shape : (xs : Bytes) (y : ℕ) → (c : ℕ) × (s : Bytes) × (xs ++ y ∷ [] ≡ c ∷ s)
append_shape [] y = (y, [], refl)
append_shape (x ∷ xs) y = (x, xs ++ y ∷ [], refl)

digits_shape : (f n : ℕ) → (c : ℕ) × (s : Bytes) × (digits_fuel (suc f) n ≡ c ∷ s)
unfolding digits_fuel
digits_shape f n = elim (Bool-cases (ltb n 10)) [
  | inl small ↦ rw small (b'0' + n, [], refl)
  | inr big ↦ rw big (append_shape (digits_fuel f (n / 10)) (b'0' + n % 10))
]

show_nat_shape : (n : ℕ) → (c : ℕ) × (s : Bytes) × (show_nat n ≡ c ∷ s) × All IsDigit (c ∷ s)
unfolding show_nat
show_nat_shape n =
    let (c, s, e) = digits_shape n n in (c, s, e, rw e at (digits_fuel-IsDigit (suc n) n))

scan-show_nat : (whole : Bytes) (n : ℕ) → n < 2 ^ 32 → scan_uint whole 0 (show_nat n) ≡ ok n
unfolding show_nat scan_uint
scan-show_nat whole n h =
    ap (scan_uint whole 0) (sym (append-nil (digits_fuel (suc n) n)))
    ∙ scan-digits_fuel (suc n) n whole [] (omega arith) h

parse_int_digits :
    (n c : ℕ) (s : Bytes)
    → n < 2 ^ 31
    → All IsDigit (c ∷ s)
    → scan_uint (c ∷ s) 0 (c ∷ s) ≡ ok n
    → parse_int (c ∷ s) ≡ ok (pos n)
unfolding parse_int
parse_int_digits n c s h d e = ground arith

-- What %v prints of a number below 2^31, ParseInt(_, 10, 32) reads back.
pub parse_int-show_nat : (n : ℕ) → n < 2 ^ 31 → parse_int (show_nat n) ≡ ok (pos n)
parse_int-show_nat n h =
    let (c, s, e, d) = show_nat_shape n in
    rw e (parse_int_digits n c s h d (rw e at (scan-show_nat (show_nat n) n (omega arith))))
