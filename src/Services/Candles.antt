-- ===== src/Services/Candles.antt =====
-- `PriceService.get_candles` of app/services.py.
pub mod Grouping
pub mod Times
pub mod Each
pub mod Laws
use deribit_price_collector.Prelude.{
  ℕ, ◌+◌, ◌∷◌, String, Option, none, some, List, [], map, length, last, if◌then◌else◌,
}
use deribit_price_collector.Prelude.Int.{ℤ, pos, ◌+ℤ◌, ◌-ℤ◌, leb_ℤ}
use deribit_price_collector.Prelude.Sort.{sort}
use deribit_price_collector.Exceptions.{Result, ok, err, other, ◌>>=◌}
use deribit_price_collector.Decimal.{Decimal, divide, of_units, of_nat}
use deribit_price_collector.Table.{Price, Table, asc}
use deribit_price_collector.Table.Engine.{Engine}
use deribit_price_collector.Repository.{get_by_ticker_and_date_range}
use deribit_price_collector.Schemas.{CandleInterval, seconds}
use deribit_price_collector.Services.Extremes.{max_of, min_of, average_of, price_values}
use deribit_price_collector.Services.Candles.Grouping.{Buckets, bucket_at, keys, group}

-- app/schemas.py: `CandleResponse`. A price that is one of the column's is in its units.
pub record CandleResponse : Type 0 where
  pub ticker : String
  pub bucket_start : ℤ
  pub bucket_end : ℤ
  pub open_price : ℤ
  pub high_price : ℤ
  pub low_price : ℤ
  pub close_price : ℤ
  pub average_price : Decimal
  pub points : ℕ

-- One round of the loop. A bucket with no row would make the division raise.
unfoldable pub candle_of : String → ℕ → ℤ → List Price → Result CandleResponse
candle_of ticker interval_seconds bucket_start [] = err other
candle_of ticker interval_seconds bucket_start (p ∷ ps) = do
  average_price ← average_of (p ∷ ps)
  ok (record {
    ticker = ticker;
    bucket_start = bucket_start;
    bucket_end = (bucket_start +ℤ pos interval_seconds) -ℤ pos 1;
    open_price = p.price;
    high_price = max_of p.price (price_values ps);
    low_price = min_of p.price (price_values ps);
    close_price = (last p ps).price;
    average_price = average_price;
    points = length (p ∷ ps);
  })

-- The loop over the starts in order.
unfoldable pub candles_of : String → ℕ → Buckets → List ℤ → Result (List CandleResponse)
candles_of ticker interval_seconds buckets [] = ok []
candles_of ticker interval_seconds buckets (bucket_start ∷ starts) = do
  candle ← candle_of ticker interval_seconds bucket_start (bucket_at bucket_start buckets)
  candles ← candles_of ticker interval_seconds buckets starts
  ok (candle ∷ candles)

-- What follows the query.
unfoldable pub candles_from : String → ℕ → List Price → Result (List CandleResponse)
candles_from ticker interval_seconds prices =
    let buckets = group interval_seconds prices [] in
    candles_of ticker interval_seconds buckets (sort leb_ℤ (keys buckets))

unfoldable pub get_candles :
    Engine → String → CandleInterval → ℤ → ℤ → Table → Result (List CandleResponse)
get_candles e ticker interval timestamp_from timestamp_to t = do
  prices ←
      get_by_ticker_and_date_range e ticker (some timestamp_from) (some timestamp_to) 10_000 0 asc t
  candles_from ticker (seconds interval) prices
