-- ===== src/Api/Prices.antt =====
-- The routes under /prices of app/api/endpoints.py.
pub mod Ends
pub mod Laws
use deribit_price_collector.Prelude.{String, List, map}
use deribit_price_collector.Prelude.Int.{pos_part}
use deribit_price_collector.Config.{Config}
use deribit_price_collector.Table.{Table}
use deribit_price_collector.Table.Engine.{Engine}
use deribit_price_collector.Schemas.{
  TickerWithPaginationQuery, PriceByDateQuery, CandleQuery, PriceSummaryQuery, validate_ticker,
  ticker_with_pagination_query, price_by_date_query, candle_query, price_summary_query,
}
use deribit_price_collector.Services
use deribit_price_collector.Services.Candles.{CandleResponse, get_candles}
use deribit_price_collector.Services.Summary.{PriceSummaryResponse}
use deribit_price_collector.Services.Summary
use deribit_price_collector.Api.Replies.{
  Reply, answer, PriceResponse, model_validate, depends, call, or_404, found_or_404, ◌>>=◌,
}

abbrev pub no_ticker_data : String
no_ticker_data = "No data found for this ticker"

abbrev pub no_query_data : String
no_query_data = "No data found for this query"

module _ (c : Config) (e : Engine) where
  unfoldable pub get_all_prices : TickerWithPaginationQuery → Table → Reply (List PriceResponse)
  unfolding Services.get_all_prices
  get_all_prices q t = do
    query ← depends (ticker_with_pagination_query c q)
    prices ← call (
        Services.get_all_prices e query.ticker (pos_part query.limit) (pos_part query.offset)
          query.sorting t)
    rows ← or_404 no_ticker_data prices
    answer (map model_validate rows)

  unfoldable pub get_latest_price : String → Table → Reply PriceResponse
  unfolding Services.get_latest_price
  get_latest_price q t = do
    ticker ← depends (validate_ticker c q)
    price ← call (Services.get_latest_price e ticker t)
    row ← found_or_404 no_ticker_data price
    answer (model_validate row)

  unfoldable pub get_prices_by_date : PriceByDateQuery → Table → Reply (List PriceResponse)
  unfolding Services.get_prices_by_date_range
  get_prices_by_date q t = do
    query ← depends (price_by_date_query c q)
    prices ← call (
        Services.get_prices_by_date_range e query.base.ticker query.timestamp_from
          query.timestamp_to (pos_part query.base.limit) (pos_part query.base.offset)
          query.base.sorting t)
    rows ← or_404 no_query_data prices
    answer (map model_validate rows)

  unfoldable pub get_price_candles : CandleQuery → Table → Reply (List CandleResponse)
  get_price_candles q t = do
    query ← depends (candle_query c q)
    candles ←
        call (get_candles e query.ticker query.interval query.timestamp_from query.timestamp_to t)
    or_404 no_query_data candles

  unfoldable pub get_price_summary : PriceSummaryQuery → Table → Reply PriceSummaryResponse
  get_price_summary q t = do
    query ← depends (price_summary_query c q)
    summary ←
        call (Summary.get_price_summary e query.ticker query.timestamp_from query.timestamp_to t)
    found_or_404 no_query_data summary
