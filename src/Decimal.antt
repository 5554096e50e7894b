-- ===== src/Decimal.antt =====
-- decimal.Decimal of Python's standard library, as app/services.py uses it: values, division and
-- multiplication in the default context (28 digits, ties to even). The exponents that occur are far
-- from the context's limits, so there is no overflow; infinities and NaN do not occur.
pub mod Digits
pub mod Laws
pub mod Sums
use deribit_price_collector.Prelude.{
  ℕ, zero, suc, ◌+◌, ◌-◌, ◌*◌, ◌/◌, ◌%◌, Bool, true, false, leb, ltb, ◌==◌, if◌then◌else◌, List, [],
  ◌∷◌,
}
use deribit_price_collector.Prelude.Int.{ℤ, pos, negsuc, pos_part, leb_ℤ, sub_ℕ, ◌+ℤ◌, ◌-ℤ◌}
use deribit_price_collector.Exceptions.{Result, ok, err, other}
use deribit_price_collector.Decimal.Digits.{pow10, digit_count}

-- The value is ± coefficient · 10 ^ exponent.
pub record Decimal : Type 0 where
  pub negative : Bool
  pub coefficient : ℕ
  pub exponent : ℤ

abbrev pub precision : ℕ
precision = 28

-- c / 10 ^ k, to the nearest whole number, a tie to the even one.
unfoldable pub round_half_even : ℕ → ℕ → ℕ
unfolding pow10
round_half_even k c =
    let q = c / pow10 k in
    let r = c % pow10 k in
    if ltb (2 * r) (pow10 k)
    then q
    else if ltb (pow10 k) (2 * r)
    then q + 1
    else if q % 2 == 0
    then q
    else q + 1

-- The rounding of a result to the precision: one digit too many after it goes, with the exponent.
unfoldable pub fix : Decimal → Decimal
unfolding round_half_even digit_count pow10 ◌+ℤ◌
fix d =
    if leb (digit_count d.coefficient) precision
    then d
    else (let k = digit_count d.coefficient - precision in
        let q = round_half_even k d.coefficient in
        if leb (pow10 precision) q
        then record d { coefficient = q / 10; exponent = d.exponent +ℤ pos (k + 1) }
        else record d { coefficient = q; exponent = d.exponent +ℤ pos k })

abbrev pub sign_of : ℤ → Bool
sign_of (pos n) = false
sign_of (negsuc n) = true

abbrev pub size_of : ℤ → ℕ
size_of (pos n) = n
size_of (negsuc n) = suc n

abbrev pub minus : ℕ → ℤ
minus zero = pos zero
minus (suc n) = negsuc n

-- The value in units of a power of ten that divides it.
abbrev pub scaled : Decimal → ℕ → ℤ
scaled d n = if d.negative then minus (d.coefficient * n) else pos (d.coefficient * n)

-- a + b: both are brought to the lower exponent. A sum of zero is positive.
unfoldable pub plus : Decimal → Decimal → Decimal
unfolding fix pow10 ◌-ℤ◌ ◌+ℤ◌
plus a b =
    let sum =
      scaled a (pow10 (pos_part (a.exponent -ℤ b.exponent)))
      +ℤ scaled b (pow10 (pos_part (b.exponent -ℤ a.exponent))) in
    fix (record {
      negative = sign_of sum;
      coefficient = size_of sum;
      exponent = if leb_ℤ a.exponent b.exponent then a.exponent else b.exponent;
    })

-- sum(values, acc)
unfoldable pub sum_of : Decimal → List Decimal → Decimal
unfolding plus
sum_of acc [] = acc
sum_of acc (x ∷ xs) = sum_of (plus acc x) xs

abbrev pub xor : Bool → Bool → Bool
xor true true = false
xor true false = true
xor false b = b

unfoldable pub times : Decimal → Decimal → Decimal
unfolding fix ◌+ℤ◌
times a b = fix (record {
  negative = xor a.negative b.negative;
  coefficient = a.coefficient * b.coefficient;
  exponent = a.exponent +ℤ b.exponent;
})

-- The zeros at the end of an exact quotient go, as long as the exponent is below the ideal one: the
-- first number is how far it is below.
unfoldable pub strip_zeros : ℕ → ℕ → ℕ × ℕ
strip_zeros zero c = (c, zero)
strip_zeros (suc k) c =
    let rest = strip_zeros k (c / 10) in if c % 10 == 0 then rest else (c, suc k)

-- An exact quotient, `up` digits further than the ideal exponent, and one that is not exact: a last
-- digit that looks like a tie, or like no remainder, is raised by one.
unfoldable pub exact_quotient : Bool → ℕ → ℕ → ℤ → Decimal
unfolding strip_zeros ◌-ℤ◌
exact_quotient negative coeff up ideal =
    let stripped = strip_zeros up coeff in
    record { negative = negative; coefficient = stripped.0; exponent = ideal -ℤ pos stripped.1 }

abbrev pub sticky : ℕ → ℕ
sticky coeff = if coeff % 5 == 0 then coeff + 1 else coeff

-- a / b: `DivisionByZero` or `DivisionUndefined` if b is zero.
unfoldable pub divide : Decimal → Decimal → Result Decimal
unfolding fix exact_quotient digit_count pow10 ◌-ℤ◌ ◌+ℤ◌
divide a b =
    let negative = xor a.negative b.negative in
    let ideal = a.exponent -ℤ b.exponent in
    let up = digit_count b.coefficient + precision + 1 - digit_count a.coefficient in
    let down = digit_count a.coefficient - (digit_count b.coefficient + precision + 1) in
    let num = a.coefficient * pow10 up in
    let den = b.coefficient * pow10 down in
    if b.coefficient == 0
    then err other
    else if a.coefficient == 0
    then ok (record { negative = negative; coefficient = 0; exponent = ideal })
    else if num % den == 0
    then ok (fix (exact_quotient negative (num / den) up (ideal +ℤ pos down)))
    else ok (
        fix (record {
          negative = negative;
          coefficient = sticky (num / den);
          exponent = ideal -ℤ sub_ℕ up down;
        }))

-- A number of units of 10⁻⁸, as the driver reads it from the column.
abbrev pub of_units : ℤ → Decimal
of_units n = record { negative = sign_of n; coefficient = size_of n; exponent = negsuc 7 }

-- Decimal(n), of an int
abbrev pub of_nat : ℕ → Decimal
of_nat n = record { negative = false; coefficient = n; exponent = pos 0 }
