-- ===== src/Tests/Serving.antt =====
-- app/services.py, app/api/endpoints.py and app/main.py at concrete inputs: two stored prices of
-- `btc_usd`, in the database in memory.
use deribit_price_collector.Prelude.{
  ℕ, ◌+◌, [], ◌∷◌, ◌≡◌, ◌≤◌, true, arith, refl, none, some, List, Option, length, All,
}
use deribit_price_collector.Prelude.Int.{pos}
use deribit_price_collector.Exceptions.{ok}
use deribit_price_collector.Config.{default_config}
use deribit_price_collector.Providers.{in_supported_ticker_set}
use deribit_price_collector.Decimal.{divide, of_units, of_nat}
use deribit_price_collector.Decimal.Sums.{sum_from, InColumn}
use deribit_price_collector.Decimal.Digits.{pow10}
use deribit_price_collector.Table.{asc, desc}
use deribit_price_collector.Repository.{
  get_by_ticker_and_date_range, get_all_by_ticker, get_latest_by_ticker,
}
use deribit_price_collector.Repository.Paging.{NoRow, listed_page, IsListedPage}
use deribit_price_collector.Repository.Pages.{IsPage}
use deribit_price_collector.Repository.Latest.{IsLatest}
use deribit_price_collector.Schemas.{
  TickerWithPaginationQuery, PriceByDateQuery, CandleQuery, PriceSummaryQuery, one_minute,
}
use deribit_price_collector.Schemas.Laws.{IsDateQuery, IsCandleQuery}
use deribit_price_collector.Schemas.Queries.{IsListQuery, IsSummaryQuery}
use deribit_price_collector.Services.Candles.{CandleResponse, get_candles}
use deribit_price_collector.Services.Candles.Laws.{AreCandles, get_candles_lem}
use deribit_price_collector.Services.Summary.{PriceSummaryResponse, summary_of}
use deribit_price_collector.Services.Summary
use deribit_price_collector.Services.Summary.Laws.{IsSummary, get_price_summary_lem}
use deribit_price_collector.Services.Extremes.{average_of, average_of_exact}
use deribit_price_collector.Api.Replies.{Reply, raised, http_exception}
use deribit_price_collector.Api.Prices.{
  get_all_prices, get_prices_by_date, get_price_candles, get_price_summary, get_latest_price,
  no_query_data, no_ticker_data,
}
use deribit_price_collector.Api.Prices.Ends.{Replied, Rows, Newest}
use deribit_price_collector.Api.Prices.Laws.{
  range_of, RangePage, get_all_prices-Replied, get_prices_by_date-Replied,
  get_price_candles-Replied, get_price_summary-Replied, get_latest_price-Replied,
}
use deribit_price_collector.Metrics.{new_metrics}
use deribit_price_collector.App.{request_id_of, serve}
use deribit_price_collector.App.Laws.{IsServed, serve_lem}
use deribit_price_collector.App.Errors.{ErrorItem, exception_object}
use deribit_price_collector.Tests.Memory.{memory, memory-IsEngine}
use deribit_price_collector.Tests.Env.{rows, rows-IsTable}

rows_run :
    get_by_ticker_and_date_range memory "btc_usd" (some (pos 0)) (some (pos 200)) 10_000 0 asc rows
    ≡ ok rows
unfolding get_by_ticker_and_date_range memory
rows_run = refl

get_candles_example :
    IsPage rows "btc_usd" (some (pos 0)) (some (pos 200)) 10_000 asc rows
    × ((candles : List CandleResponse) × (get_candles memory "btc_usd" one_minute
            (pos 0)
            (pos 200)
            rows
          ≡ ok candles)
        × AreCandles "btc_usd" one_minute rows candles)
get_candles_example =
    get_candles_lem memory rows "btc_usd" one_minute (pos 0) (pos 200) rows memory-IsEngine
      rows-IsTable rows_run

get_price_summary_example :
    IsPage rows "btc_usd" (some (pos 0)) (some (pos 200)) 10_000 asc rows
    × ((out : Option PriceSummaryResponse) × (Summary.get_price_summary memory "btc_usd"
            (pos 0)
            (pos 200)
            rows
          ≡ ok out)
        × IsSummary "btc_usd" (pos 0) (pos 200) rows out)
get_price_summary_example =
    get_price_summary_lem memory rows "btc_usd" (pos 0) (pos 200) rows memory-IsEngine rows-IsTable
      rows_run

two_at_most : length rows ≤ 10_000
two_at_most = omega arith

in_column : All InColumn (pos 5 ∷ pos 7 ∷ [])
unfolding pow10
in_column = (omega arith, (omega arith, tt))

average_of_example :
    average_of rows ≡ divide (of_units (sum_from (pos 0) (pos 5 ∷ pos 7 ∷ []))) (of_nat 2)
average_of_example =
    average_of_exact
      (record { id = 1; ticker = "btc_usd"; price = pos 5; timestamp = pos 100; created_at = 0 })
      (record { id = 2; ticker = "btc_usd"; price = pos 7; timestamp = pos 160; created_at = 0 }
        ∷ [])
      two_at_most in_column

abbrev by_date : PriceByDateQuery
by_date = record {
  base = record { ticker = "btc_usd"; limit = pos 50; offset = pos 0; sorting = asc };
  timestamp_from = some (pos 100);
  timestamp_to = none;
}

get_prices_by_date_example :
    Replied
      (IsDateQuery default_config by_date)
      (get_by_ticker_and_date_range memory "btc_usd" (some (pos 100)) none 50 0 asc rows)
      (λ found. listed_page rows "btc_usd" (some (pos 100)) none 50 0 asc ≡ [])
      (Rows (IsListedPage rows "btc_usd" (some (pos 100)) none 50 0 asc))
      no_query_data
      (get_prices_by_date default_config memory by_date rows)
get_prices_by_date_example =
    get_prices_by_date-Replied default_config memory rows memory-IsEngine rows-IsTable by_date

abbrev pub first_page : TickerWithPaginationQuery
first_page = record { ticker = "eth_usd"; limit = pos 1; offset = pos 0; sorting = desc }

get_all_prices_example :
    Replied
      (IsListQuery default_config first_page)
      (get_all_by_ticker memory "eth_usd" 1 0 desc rows)
      (λ found. listed_page rows "eth_usd" none none 1 0 desc ≡ [])
      (Rows (IsListedPage rows "eth_usd" none none 1 0 desc))
      no_ticker_data
      (get_all_prices default_config memory first_page rows)
get_all_prices_example =
    get_all_prices-Replied default_config memory rows memory-IsEngine rows-IsTable first_page

abbrev minutes : CandleQuery
minutes = record {
  ticker = "btc_usd";
  interval = one_minute;
  timestamp_from = pos 0;
  timestamp_to = pos 200;
}

get_price_candles_example :
    Replied
      (IsCandleQuery default_config minutes)
      (range_of memory rows "btc_usd" (pos 0) (pos 200))
      (λ found. NoRow rows "btc_usd" (pos 0) (pos 200))
      (λ found candles.
        RangePage rows "btc_usd" (pos 0) (pos 200) found
        × AreCandles "btc_usd" one_minute found candles)
      no_query_data
      (get_price_candles default_config memory minutes rows)
get_price_candles_example =
    get_price_candles-Replied default_config memory rows memory-IsEngine rows-IsTable minutes

abbrev summarised : PriceSummaryQuery
summarised = record { ticker = "btc_usd"; timestamp_from = pos 0; timestamp_to = pos 200 }

get_price_summary-Replied_example :
    Replied
      (IsSummaryQuery default_config summarised)
      (range_of memory rows "btc_usd" (pos 0) (pos 200))
      (λ found. NoRow rows "btc_usd" (pos 0) (pos 200))
      (λ found s.
        RangePage rows "btc_usd" (pos 0) (pos 200) found
        × IsSummary "btc_usd" (pos 0) (pos 200) found (some s))
      no_query_data
      (get_price_summary default_config memory summarised rows)
get_price_summary-Replied_example =
    get_price_summary-Replied default_config memory rows memory-IsEngine rows-IsTable summarised

get_latest_price_example :
    Replied
      (in_supported_ticker_set default_config "doge_usd" ≡ ok true)
      (get_latest_by_ticker memory "doge_usd" rows)
      (λ row. (row ≡ none) × IsLatest rows "doge_usd" none)
      (Newest rows "doge_usd")
      no_ticker_data
      (get_latest_price default_config memory "doge_usd" rows)
get_latest_price_example =
    get_latest_price-Replied default_config memory rows memory-IsEngine rows-IsTable "doge_usd"

abbrev lost : Reply ℕ
lost = raised (http_exception 404 "No data")

serve_example :
    let served =
      serve 0 ◌+◌ "/prices/candles" none "id-1" 12 []
        (raised (http_exception 404 "No data"))
        (new_metrics 0 ◌+◌) in
    IsServed "id-1" lost (new_metrics 0 ◌+◌) served.0 served.1
unfolding request_id_of
serve_example = serve_lem 0 ◌+◌ "/prices/candles" none "id-1" 12 [] lost (new_metrics 0 ◌+◌)

abbrev refused : List ErrorItem
refused =
    record {
      ctx = some (record { error = some (exception_object "not supported"); others = [] });
      others = ("type", "value_error") ∷ [];
    }
    ∷ []
