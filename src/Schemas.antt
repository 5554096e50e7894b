-- ===== src/Schemas.antt =====
-- app/schemas.py: the queries of the API with what pydantic checks of them. A query that fails any
-- check is refused with `ValidationError`, which is a `ValueError`. The reading of the fields from text
-- is pydantic's.
pub mod Laws
pub mod Queries
use deribit_price_collector.Prelude.{
  ℕ, String, Bool, true, false, Option, none, some, ◌&&◌, if◌then◌else◌,
}
use deribit_price_collector.Prelude.Int.{ℤ, pos, leb_ℤ, ltb_ℤ}
use deribit_price_collector.Exceptions.{Result, ok, err, value_error, ◌>>=◌, ◌>>◌}
use deribit_price_collector.Config.{Config}
use deribit_price_collector.Providers.{in_supported_ticker_set}
use deribit_price_collector.Table.{SortOrder}

pub data CandleInterval : Type 0 where
  one_minute five_minutes one_hour one_day : CandleInterval

-- CandleInterval.seconds
unfoldable pub seconds : CandleInterval → ℕ
seconds one_minute = 60
seconds five_minutes = 300
seconds one_hour = 3600
seconds one_day = 86400

-- PaginationSortQuery, TickerQuery and TickerWithPaginationQuery
pub record TickerWithPaginationQuery : Type 0 where
  pub ticker : String
  pub limit : ℤ
  pub offset : ℤ
  pub sorting : SortOrder

pub record PriceByDateQuery : Type 0 where
  pub base : TickerWithPaginationQuery
  pub timestamp_from : Option ℤ
  pub timestamp_to : Option ℤ

pub record CandleQuery : Type 0 where
  pub ticker : String
  pub interval : CandleInterval
  pub timestamp_from : ℤ
  pub timestamp_to : ℤ

pub record PriceSummaryQuery : Type 0 where
  pub ticker : String
  pub timestamp_from : ℤ
  pub timestamp_to : ℤ

-- raise ValueError(...), if the test is negative
abbrev pub check : Bool → Result (Unit {0})
check b = if b then ok tt else err value_error

-- Field(..., ge=lo, le=hi)
abbrev pub between : ℤ → ℤ → ℤ → Bool
between lo hi n = leb_ℤ lo n && leb_ℤ n hi

-- TickerQuery.validate_ticker
unfoldable pub validate_ticker : Config → String → Result String
validate_ticker c value = do supported ← in_supported_ticker_set c value; check supported; ok value

unfoldable pub ticker_with_pagination_query :
    Config → TickerWithPaginationQuery → Result TickerWithPaginationQuery
ticker_with_pagination_query c q = do
  check (between (pos 1) (pos 1000) q.limit)
  check (leb_ℤ (pos 0) q.offset)
  ticker ← validate_ticker c q.ticker
  ok (record q { ticker = ticker })

-- PriceByDateQuery.validate_timestamp
abbrev pub validate_timestamp : Option ℤ → Result (Option ℤ)
validate_timestamp none = ok none
validate_timestamp (some v) =
    if ltb_ℤ v (pos 0)
    then err value_error
    else if ltb_ℤ (pos 2_500_000_000) v
    then err value_error
    else ok (some v)

-- PriceByDateQuery.validate_range
abbrev pub validate_range : Option ℤ → Option ℤ → Result (Unit {0})
validate_range none timestamp_to = ok tt
validate_range (some n) none = ok tt
validate_range (some n) (some m) = if ltb_ℤ m n then err value_error else ok tt

unfoldable pub price_by_date_query : Config → PriceByDateQuery → Result PriceByDateQuery
price_by_date_query c q = do
  base ← ticker_with_pagination_query c q.base
  timestamp_from ← validate_timestamp q.timestamp_from
  timestamp_to ← validate_timestamp q.timestamp_to
  validate_range timestamp_from timestamp_to
  ok (record { base = base; timestamp_from = timestamp_from; timestamp_to = timestamp_to })

unfoldable pub candle_query : Config → CandleQuery → Result CandleQuery
candle_query c q = do
  ticker ← validate_ticker c q.ticker
  check (between (pos 0) (pos 2_500_000_000) q.timestamp_from)
  check (between (pos 0) (pos 2_500_000_000) q.timestamp_to)
  validate_range (some q.timestamp_from) (some q.timestamp_to)
  ok (record q { ticker = ticker })

unfoldable pub price_summary_query : Config → PriceSummaryQuery → Result PriceSummaryQuery
price_summary_query c q = do
  ticker ← validate_ticker c q.ticker
  check (between (pos 0) (pos 2_500_000_000) q.timestamp_from)
  check (between (pos 0) (pos 2_500_000_000) q.timestamp_to)
  validate_range (some q.timestamp_from) (some q.timestamp_to)
  ok (record q { ticker = ticker })
