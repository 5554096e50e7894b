-- ===== src/Services.antt =====
-- app/services.py: `PriceService`. The three plain reads pass their arguments on to the repository; the
-- candles and the summary are computed from one page of at most 10 000 rows.
pub mod Extremes
pub mod Candles
pub mod Summary
use deribit_price_collector.Prelude.{ℕ, String, Option, List}
use deribit_price_collector.Prelude.Int.{ℤ}
use deribit_price_collector.Exceptions.{Result}
use deribit_price_collector.Table.{Price, Table, SortOrder}
use deribit_price_collector.Table.Engine.{Engine}
use deribit_price_collector.Repository.{
  get_all_by_ticker, get_latest_by_ticker, get_by_ticker_and_date_range,
}

module _ (e : Engine) where
  unfoldable pub get_all_prices : String → ℕ → ℕ → SortOrder → Table → Result (List Price)
  get_all_prices ticker limit offset sorting t = get_all_by_ticker e ticker limit offset sorting t

  unfoldable pub get_latest_price : String → Table → Result (Option Price)
  get_latest_price ticker t = get_latest_by_ticker e ticker t

  unfoldable pub get_prices_by_date_range :
      String → Option ℤ → Option ℤ → ℕ → ℕ → SortOrder → Table → Result (List Price)
  get_prices_by_date_range ticker timestamp_from timestamp_to limit offset sorting t =
      get_by_ticker_and_date_range e ticker timestamp_from timestamp_to limit offset sorting t
