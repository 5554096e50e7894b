-- ===== src/Decimal/Digits.antt =====
-- Powers of ten, and how many digits a number has.
use native.Mathlib.Nat.{zero-add}
use deribit_price_collector.Prelude.{
  ltb→lt, ◌-◌, ℕ, zero, suc, ◌+◌, ◌*◌, ◌/◌, ◌≤◌, ◌<◌, ◌≡◌, refl, inl, inr, arith, ltb,
  if◌then◌else◌, Bool-cases,
}

unfoldable pub pow10 : ℕ → ℕ
pow10 zero = 1
pow10 (suc k) = 10 * pow10 k

digits_of : ℕ → ℕ → ℕ
digits_of zero n = 1
digits_of (suc fuel) n = let rest = digits_of fuel (n / 10) in if ltb n 10 then 1 else rest + 1

-- len(str(n)). A number has no more digits than it is large, so it is enough fuel.
unfoldable pub digit_count : ℕ → ℕ
unfolding digits_of
digit_count n = digits_of n n

pub pow10_pos : (k : ℕ) → 0 < pow10 k
unfolding pow10
pow10_pos zero = omega arith
pow10_pos (suc k) = omega (arith, pow10_pos k)

-- With enough fuel the count is exact: n lies between two successive powers of ten.
record CountOf (n d : ℕ) : Type 0 where
  one_less : ℕ
  counted : d ≡ suc one_less
  least : pow10 one_less ≤ n
  most : n < pow10 (suc one_less)

digits_of_lem : (fuel n : ℕ) → 0 < n → n ≤ fuel → CountOf n (digits_of fuel n)
unfolding digits_of pow10
digits_of_lem zero n p h = absurd (omega arith)
digits_of_lem (suc fuel) n p h = elim (Bool-cases (ltb n 10)) [
  | inl e ↦ rw e (record { one_less = 0; counted = refl; least = omega arith; most = ground arith })
  | inr e ↦
      let ih : CountOf (n / 10) (digits_of fuel (n / 10)) =
        digits_of_lem fuel (n / 10) (ground arith) (ground arith) in
      rw e (record {
        one_less = suc ih.one_less;
        counted = omega (arith, ih.counted);
        least = omega (arith, ih.least);
        most = omega (arith, ih.most);
      })
]

pub pow10_mono : (k n : ℕ) → pow10 k ≤ pow10 (n + k)
unfolding pow10
pow10_mono k zero = rw zero-add (omega arith)
pow10_mono k (suc n) =
    let e : suc n + k ≡ suc (n + k) = omega arith in
    rw e (omega (arith, pow10_mono k n, pow10_pos (n + k)))

-- A number below 10 ^ d has at most d digits, but for zero, which has one.
pub digit_count_le : (d n : ℕ) → n < pow10 (suc d) → digit_count n ≤ suc d
unfolding digit_count
digit_count_le d zero h = unfold digits_of in omega arith
digit_count_le d (suc n) h = elim (Bool-cases (ltb (suc d) (digits_of (suc n) (suc n)))) [
  | inl e ↦
      let c = digits_of_lem (suc n) (suc n) (omega arith) (omega arith) in
      absurd (
        above c.one_less (omega (arith, c.counted, ltb→lt (suc d) (digits_of (suc n) (suc n)) e))
          c.least)
  | inr e ↦ ground arith
]
  where
    above : (k : ℕ) → suc d ≤ k → pow10 k ≤ suc n → ⊥
    above k p q =
        let same : (k - suc d) + suc d ≡ k = omega arith in
        omega (arith, rw same at (pow10_mono (suc d) (k - suc d)))
