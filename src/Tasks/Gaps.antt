-- ===== src/Tasks/Gaps.antt =====
-- collector/tasks.py: `resolve_reconciliation_range` and `has_missing_intervals`.
pub mod Laws
use deribit_price_collector.Prelude.{
  ℕ, String, Bool, false, List, [], ◌∷◌, any, drop, length, ltb, if◌then◌else◌,
}
use deribit_price_collector.Prelude.Int.{ℤ, pos, ◌*ℤ◌, ◌-ℤ◌, leb_ℤ, ltb_ℤ}
use deribit_price_collector.Providers.{
  HistoryRange, one_hour, one_day, two_days, one_month, one_year, all,
}

unfoldable pub resolve_reconciliation_range : ℤ → HistoryRange
resolve_reconciliation_range lookback_seconds =
    if leb_ℤ lookback_seconds (pos 3600)
    then one_hour
    else if leb_ℤ lookback_seconds (pos 86400)
    then one_day
    else if leb_ℤ lookback_seconds (pos 172800)
    then two_days
    else if leb_ℤ lookback_seconds (pos 2678400)
    then one_month
    else if leb_ℤ lookback_seconds (pos 31622400)
    then one_year
    else all

-- zip(xs, ys, strict=False)
abbrev pub zip : List ℤ → List ℤ → List (ℤ × ℤ)
zip [] ys = []
zip (x ∷ xs) [] = []
zip (x ∷ xs) (y ∷ ys) = (x, y) ∷ zip xs ys

unfoldable pub has_missing_intervals : List ℤ → ℤ → ℤ → Bool
has_missing_intervals timestamps expected_step_sec stale_multiplier =
    if ltb (length timestamps) 2
    then false
    else (let max_allowed_gap = expected_step_sec *ℤ stale_multiplier in
        any (λ (pair : ℤ × ℤ). ltb_ℤ max_allowed_gap (pair.1 -ℤ pair.0))
          (zip timestamps (drop 1 timestamps)))
