-- ===== src/Decimal/Sums.antt =====
-- Sums of prices in the context of 28 digits: how large they can be without rounding.
use deribit_price_collector.Prelude.{
  ℕ, suc, ◌+◌, ◌*◌, ◌≤◌, ◌<◌, ◌≡◌, refl, sym, ap, ◌∙◌, List, [], ◌∷◌, map, All, length, arith, true,
  leb,
}
use deribit_price_collector.Prelude.Int.{ℤ, pos, negsuc, ◌+ℤ◌, int_laws, eq_of_parts}
use deribit_price_collector.Decimal.{
  Decimal, fix, plus, sum_of, scaled, of_units, of_nat, sign_of, size_of, precision,
}
use deribit_price_collector.Decimal.Digits.{pow10, digit_count, digit_count_le}

-- Adding up integers.
unfoldable pub sum_from : ℤ → List ℤ → ℤ
sum_from acc [] = acc
sum_from acc (x ∷ xs) = sum_from (acc +ℤ x) xs

scaled_one : (x : ℤ) → scaled (of_units x) 1 ≡ x
scaled_one (pos n) = ap pos (omega arith)
scaled_one (negsuc n) = let e : suc n * 1 ≡ suc n = omega arith in rw e

zero_plus : (y : ℤ) → pos 0 +ℤ y ≡ y
zero_plus y = eq_of_parts (pos 0 +ℤ y) y (omega int_laws)

fix_small : (d : Decimal) → d.coefficient < pow10 28 → fix d ≡ d
fix_small d h =
    let k : digit_count d.coefficient ≤ 28 = digit_count_le 27 d.coefficient h in
    let e : leb (digit_count d.coefficient) precision ≡ true = ground arith in unfold fix in rw e

plus_units :
    (x y : ℤ) → size_of (x +ℤ y) < pow10 28 → plus (of_units x) (of_units y) ≡ of_units (x +ℤ y)
plus_units x y h =
    unfold plus in
    ap (λ z. fix (record { negative = sign_of z; coefficient = size_of z; exponent = negsuc 7 }))
      (λ i. scaled_one x i +ℤ scaled_one y i)
    ∙ fix_small (of_units (x +ℤ y)) h

plus_zero : (y : ℤ) → size_of y < pow10 28 → plus (of_nat 0) (of_units y) ≡ of_units y
plus_zero y h =
    unfold plus in
    ap (λ z. fix (record { negative = sign_of z; coefficient = size_of z; exponent = negsuc 7 }))
      (ap (λ z. pos 0 +ℤ z) (scaled_one y) ∙ zero_plus y)
    ∙ fix_small (of_units y) h

-- A price of the column has at most 20 digits.
abbrev pub InColumn : ℤ → Type 0
InColumn x = size_of x < pow10 20

-- The sum of at most k such prices.
abbrev Below : ℕ → ℤ → Type 0
Below k x = size_of x ≤ k * pow10 20

size_plus : (x y : ℤ) → size_of (x +ℤ y) ≤ size_of x + size_of y
unfolding ◌+ℤ◌
size_plus x y = ground arith

Below-plus : (k : ℕ) (x y : ℤ) → Below k x → InColumn y → Below (suc k) (x +ℤ y)
unfolding pow10
Below-plus k x y h p = omega (arith, size_plus x y)

small : (k : ℕ) (x : ℤ) → k ≤ 10_000 → Below k x → size_of x < pow10 28
unfolding pow10
small k x h b = omega arith

Below-one : (x : ℤ) → InColumn x → Below 1 x
unfolding pow10
Below-one x h = omega arith

sums_agree :
    (k : ℕ) (acc : ℤ) (xs : List ℤ)
    → Below k acc
    → k + length xs ≤ 10_000
    → All InColumn xs
    → sum_of (of_units acc) (map of_units xs) ≡ of_units (sum_from acc xs)
unfolding sum_of sum_from
sums_agree k acc [] b h a = refl
sums_agree k acc (x ∷ xs) b h a =
    let b' = Below-plus k acc x b a.0 in
    ap (λ z. sum_of z (map of_units xs))
      (plus_units acc x (small (suc k) (acc +ℤ x) (omega arith) b'))
    ∙ sums_agree (suc k) (acc +ℤ x) xs b' (omega arith) a.1

-- The sum of one price at least and 10 000 at most is exact: it never has more digits than the
-- context keeps.
pub sum_of_exact :
    (x : ℤ) (xs : List ℤ)
    → length (x ∷ xs) ≤ 10_000
    → All InColumn (x ∷ xs)
    → sum_of (of_nat 0) (map of_units (x ∷ xs)) ≡ of_units (sum_from (pos 0) (x ∷ xs))
unfolding sum_of sum_from
sum_of_exact x xs h a =
    let one : Below 1 x = Below-one x a.0 in
    ap (λ z. sum_of z (map of_units xs)) (plus_zero x (small 1 x (omega arith) one))
    ∙ sums_agree 1 x xs one (omega arith) a.1
    ∙ ap (λ z. of_units (sum_from z xs)) (sym (zero_plus x))
