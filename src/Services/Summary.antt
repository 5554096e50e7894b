-- ===== src/Services/Summary.antt =====
-- `PriceService.get_price_summary` of app/services.py.
pub mod Laws
use deribit_price_collector.Prelude.{
  ℕ, ◌∷◌, String, Option, none, some, List, [], length, last, if◌then◌else◌,
}
use deribit_price_collector.Prelude.Int.{ℤ, pos, ◌-ℤ◌, ltb_ℤ, eq_ℤ}
use deribit_price_collector.Exceptions.{Result, ok, err, ◌>>=◌}
use deribit_price_collector.Decimal.{Decimal, divide, times, of_units, of_nat}
use deribit_price_collector.Table.{Price, Table, asc}
use deribit_price_collector.Table.Engine.{Engine}
use deribit_price_collector.Repository.{get_by_ticker_and_date_range}
use deribit_price_collector.Services.Extremes.{max_of, min_of, average_of, price_values}

-- app/schemas.py: `PriceSummaryResponse`. A price that is one of the column's, or a difference of two,
-- is in its units.
pub record PriceSummaryResponse : Type 0 where
  pub ticker : String
  pub timestamp_from : ℤ
  pub timestamp_to : ℤ
  pub points : ℕ
  pub min_price : ℤ
  pub max_price : ℤ
  pub average_price : Decimal
  pub price_change : ℤ
  pub price_change_percent : Decimal
  pub start_price : ℤ
  pub end_price : ℤ
  pub trend : String

unfoldable pub trend_of : ℤ → String
trend_of price_change =
    if ltb_ℤ (pos 0) price_change
    then "up"
    else if ltb_ℤ price_change (pos 0)
    then "down"
    else "flat"

unfoldable pub percent_of : ℤ → ℤ → Result Decimal
percent_of price_change start_price = if eq_ℤ start_price (pos 0) then ok (of_nat 0) else do
  quotient ← divide (of_units price_change) (of_units start_price)
  ok (times quotient (of_nat 100))

-- What follows the query.
unfoldable pub summary_of : String → ℤ → ℤ → List Price → Result (Option PriceSummaryResponse)
unfolding trend_of percent_of
summary_of ticker timestamp_from timestamp_to [] = ok none
summary_of ticker timestamp_from timestamp_to (p ∷ ps) = do
  let price_change = (last p ps).price -ℤ p.price
  price_change_percent ← percent_of price_change p.price
  average_price ← average_of (p ∷ ps)
  ok (
      some (record {
        ticker = ticker;
        timestamp_from = timestamp_from;
        timestamp_to = timestamp_to;
        points = length (p ∷ ps);
        min_price = min_of p.price (price_values ps);
        max_price = max_of p.price (price_values ps);
        average_price = average_price;
        price_change = price_change;
        price_change_percent = price_change_percent;
        start_price = p.price;
        end_price = (last p ps).price;
        trend = trend_of price_change;
      }))

unfoldable pub get_price_summary :
    Engine → String → ℤ → ℤ → Table → Result (Option PriceSummaryResponse)
get_price_summary e ticker timestamp_from timestamp_to t = do
  prices ←
      get_by_ticker_and_date_range e ticker (some timestamp_from) (some timestamp_to) 10_000 0 asc t
  summary_of ticker timestamp_from timestamp_to prices
