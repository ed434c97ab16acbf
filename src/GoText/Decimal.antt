-- ===== src/GoText/Decimal.antt =====
-- strconv.ParseInt(s, 10, 32) and the decimal form that fmt's %v prints.
pub mod RoundTrip
use Prim.Native.Nat.{◌/◌, ◌%◌, ◌^◌}
use gocs.Prelude.{
  ℕ, zero, suc, ◌+◌, ◌-◌, ◌*◌, ◌≤◌, ◌<◌, ◌≡◌, refl, Bool, true, false, ◌&&◌, ◌||◌, List, [], ◌∷◌,
  ◌++◌, Bytes, codes, leb, ltb, eqb, if◌then◌else◌, arith, Bool-cases, inl, inr,
}
use gocs.Errors.{Error, syntax, out_of_range, Result, ok, err, ◌>>=◌}

-- `negsuc n` is -(n + 1).
pub data ℤ : Type 0 where
  pos : ℕ → ℤ
  negsuc : ℕ → ℤ

abbrev is_digit : ℕ → Bool
is_digit c = leb b'0' c && leb c b'9'

-- The digit loop of strconv.ParseUint with 32 bits.
pub scan_uint : Bytes → ℕ → Bytes → Result ℕ
scan_uint whole n [] = ok n
scan_uint whole n (c ∷ s) =
    let n' = n * 10 + (c - b'0') in
    let rest = scan_uint whole n' s in
    if is_digit c
    then (if leb (2 ^ 32) n' then err (out_of_range whole) else rest)
    else err (syntax whole)

-- strconv.ParseUint(s, 10, 32), errors naming the whole text.
pub parse_uint : Bytes → Bytes → Result ℕ
parse_uint whole [] = err (syntax whole)
parse_uint whole (c ∷ s) = scan_uint whole 0 (c ∷ s)

abbrev minus : ℕ → ℤ
minus zero = pos 0
minus (suc n) = negsuc n

abbrev positive : Bytes → Result ℕ → Result ℤ
positive whole r = do n ← r; if leb (2 ^ 31) n then err (out_of_range whole) else ok (pos n)

abbrev negative : Bytes → Result ℕ → Result ℤ
negative whole r = do n ← r; if ltb (2 ^ 31) n then err (out_of_range whole) else ok (minus n)

unfoldable pub parse_int : Bytes → Result ℤ
unfolding parse_uint scan_uint
parse_int [] = err (syntax [])
parse_int (c ∷ s) =
    if eqb c b'+'
    then positive (c ∷ s) (parse_uint (c ∷ s) s)
    else if eqb c b'-'
    then negative (c ∷ s) (parse_uint (c ∷ s) s)
    else positive (c ∷ s) (parse_uint (c ∷ s) (c ∷ s))

-- The digits of n, most significant first; n + 1 rounds are more than enough.
pub digits_fuel : ℕ → ℕ → Bytes
digits_fuel zero n = []
digits_fuel (suc f) n =
    let rest = digits_fuel f (n / 10) in
    if ltb n 10 then (b'0' + n) ∷ [] else rest ++ (b'0' + n % 10) ∷ []

unfoldable pub show_nat : ℕ → Bytes
unfolding digits_fuel
show_nat n = digits_fuel (suc n) n

unfoldable pub show_int : ℤ → Bytes
unfolding show_nat
show_int (pos n) = show_nat n
show_int (negsuc n) = b'-' ∷ show_nat (suc n)
