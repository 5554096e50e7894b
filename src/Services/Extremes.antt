-- ===== src/Services/Extremes.antt =====
-- The built-in `sum`, `min` and `max` over prices, and what they give.
use deribit_price_collector.Prelude.{
  ◌≡◌, refl, ◌∙◌, ◌⊎◌, inl, inr, Bool-cases, List, [], ◌∷◌, map, All, arith, length, ◌≤◌, ap, suc,
  if◌then◌else◌,
}
use deribit_price_collector.Prelude.Int.{ℤ, pos, ◌≤ℤ◌, ltb_ℤ}
use deribit_price_collector.Prelude.Order.{Member}
use deribit_price_collector.Exceptions.{Result, ok}
use deribit_price_collector.Decimal.{Decimal, divide, sum_of, of_units, of_nat}
use deribit_price_collector.Decimal.Laws.{divide_runs}
use deribit_price_collector.Decimal.Sums.{InColumn, sum_from, sum_of_exact}
use deribit_price_collector.Table.{Price}

-- max(values), of a first value and the others
unfoldable pub max_of : ℤ → List ℤ → ℤ
max_of x [] = x
max_of x (y ∷ ys) = max_of (if ltb_ℤ x y then y else x) ys

unfoldable pub min_of : ℤ → List ℤ → ℤ
min_of x [] = x
min_of x (y ∷ ys) = min_of (if ltb_ℤ y x then y else x) ys

abbrev pub price_values : List Price → List ℤ
price_values rows = map (λ (r : Price). r.price) rows

-- sum(price_values, Decimal("0")) / Decimal(len(rows))
unfoldable pub average_of : List Price → Result Decimal
average_of rows =
    divide (sum_of (of_nat 0) (map of_units (price_values rows))) (of_nat (length rows))

pub average_of_runs :
    (first : Price) (rest : List Price) → (q : Decimal) × (average_of (first ∷ rest) ≡ ok q)
unfolding average_of
average_of_runs first rest =
    divide_runs (sum_of (of_nat 0) (map of_units (price_values (first ∷ rest))))
      (of_nat (length (first ∷ rest))) (ground arith)

price_values-length : (rows : List Price) → length (price_values rows) ≡ length rows
price_values-length [] = refl
price_values-length (r ∷ rows) = ap suc (price_values-length rows)

-- The average of 10 000 prices of the column at most, one at least, is the quotient of their exact sum
-- and their number: only the division rounds.
pub average_of_exact :
    (first : Price) (rest : List Price)
    → length (first ∷ rest) ≤ 10_000
    → All InColumn (price_values (first ∷ rest))
    → average_of (first ∷ rest)
      ≡ divide
          (of_units (sum_from (pos 0) (price_values (first ∷ rest))))
          (of_nat (length (first ∷ rest)))
unfolding average_of
average_of_exact first rest h a =
    rw (sum_of_exact first.price (price_values rest) (rw (price_values-length rest) h) a)

pub record IsMax (m : ℤ) (xs : List ℤ) : Type 0 where
  pub occurs : Member m xs
  pub above : All (λ x. x ≤ℤ m) xs

pub record IsMin (m : ℤ) (xs : List ℤ) : Type 0 where
  pub occurs : Member m xs
  pub below : All (λ x. m ≤ℤ x) xs

IsMax-cons :
    (m x y z : ℤ) (ys : List ℤ)
    → (z ≡ x) ⊎ (z ≡ y)
    → x ≤ℤ z
    → y ≤ℤ z
    → IsMax m (z ∷ ys)
    → IsMax m (x ∷ y ∷ ys)
IsMax-cons m x y z ys e f g h = record {
  occurs = from e h.occurs;
  above = (omega (arith, h.above.0), (omega (arith, h.above.0), h.above.1));
}
  where
    from : (z ≡ x) ⊎ (z ≡ y) → Member m (z ∷ ys) → Member m (x ∷ y ∷ ys)
    from (inl p) (inl q) = inl (q ∙ p)
    from (inr p) (inl q) = inr (inl (q ∙ p))
    from p (inr k) = inr (inr k)

IsMin-cons :
    (m x y z : ℤ) (ys : List ℤ)
    → (z ≡ x) ⊎ (z ≡ y)
    → z ≤ℤ x
    → z ≤ℤ y
    → IsMin m (z ∷ ys)
    → IsMin m (x ∷ y ∷ ys)
IsMin-cons m x y z ys e f g h = record {
  occurs = from e h.occurs;
  below = (omega (arith, h.below.0), (omega (arith, h.below.0), h.below.1));
}
  where
    from : (z ≡ x) ⊎ (z ≡ y) → Member m (z ∷ ys) → Member m (x ∷ y ∷ ys)
    from (inl p) (inl q) = inl (q ∙ p)
    from (inr p) (inl q) = inr (inl (q ∙ p))
    from p (inr k) = inr (inr k)

pub max_of-IsMax : (x : ℤ) (ys : List ℤ) → IsMax (max_of x ys) (x ∷ ys)
unfolding max_of
max_of-IsMax x [] = record { occurs = inl refl; above = (omega arith, tt) }
max_of-IsMax x (y ∷ ys) = elim (Bool-cases (ltb_ℤ x y)) [
  | inl e ↦ rw e (
      IsMax-cons (max_of y ys) x y y ys (inr refl) (ground arith) (omega arith) (max_of-IsMax y ys))
  | inr e ↦ rw e (
      IsMax-cons (max_of x ys) x y x ys (inl refl) (omega arith) (ground arith) (max_of-IsMax x ys))
]

pub min_of-IsMin : (x : ℤ) (ys : List ℤ) → IsMin (min_of x ys) (x ∷ ys)
unfolding min_of
min_of-IsMin x [] = record { occurs = inl refl; below = (omega arith, tt) }
min_of-IsMin x (y ∷ ys) = elim (Bool-cases (ltb_ℤ y x)) [
  | inl e ↦ rw e (
      IsMin-cons (min_of y ys) x y y ys (inr refl) (ground arith) (omega arith) (min_of-IsMin y ys))
  | inr e ↦ rw e (
      IsMin-cons (min_of x ys) x y x ys (inl refl) (omega arith) (ground arith) (min_of-IsMin x ys))
]
