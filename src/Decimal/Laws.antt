-- ===== src/Decimal/Laws.antt =====
-- When a division returns.
use deribit_price_collector.Prelude.{◌≡◌, ◌≢◌, inl, inr, false, arith, ◌==◌}
use deribit_price_collector.Exceptions.{Exn, ok, err, Result-cases}
use deribit_price_collector.Decimal.{Decimal, divide}

-- A division by a value that is not zero returns.
pub divide_runs :
    (a b : Decimal) → (b.coefficient == 0) ≡ false → (q : Decimal) × (divide a b ≡ ok q)
divide_runs a b h = elim (Result-cases (divide a b)) [
  | inl (q, p) ↦ (q, p)
  | inr (x, p) ↦ absurd (never x p)
]
  where
    never : (x : Exn) → divide a b ≢ err x
    never x p = unfold divide in ground arith
