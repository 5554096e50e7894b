-- ===== src/Tests/Requests.antt =====
-- The API's queries and counters at concrete inputs: two requests overlap, and the first ends with an
-- exception while the second is still under way.
use deribit_price_collector.Prelude.{ℕ, ◌+◌, [], ◌∷◌, ◌≡◌, refl, none, some}
use deribit_price_collector.Prelude.Int.{pos}
use deribit_price_collector.Config.{default_config, supported_tickers}
use deribit_price_collector.Providers.{in_supported_ticker_set}
use deribit_price_collector.Table.{asc}
use deribit_price_collector.Schemas.{
  PriceByDateQuery, CandleQuery, one_hour, price_by_date_query, ticker_with_pagination_query,
  validate_ticker, candle_query,
}
use deribit_price_collector.Exceptions.{ok, err, other, value_error}
use deribit_price_collector.Metrics.{RuntimeMetrics, new_metrics, on_request_start, leave}
use deribit_price_collector.Metrics.Traces.{Reachable, new, started, ended}
use deribit_price_collector.Metrics.Laws.{Accounts, runtime_metrics-Accounts}

abbrev overlapping : RuntimeMetrics ℕ
overlapping =
    on_request_start 0 ◌+◌ "/prices/latest" (on_request_start 0 ◌+◌ "/prices" (new_metrics 0 ◌+◌))

overlapping-Reachable :
    Reachable (Unit {0}) 0 ◌+◌ overlapping ("/prices/latest" ∷ "/prices" ∷ []) []
overlapping-Reachable = started "/prices/latest" (started "/prices" new)

abbrev first_ended : RuntimeMetrics ℕ
first_ended = (leave 0 ◌+◌ {B = Unit {0}} "/prices" "id-1" 12 (err other) overlapping).1

first_ended-Reachable :
    Reachable (Unit {0}) 0 ◌+◌ first_ended ("/prices/latest" ∷ []) (("/prices", 500) ∷ [])
first_ended-Reachable =
    ended ("/prices/latest" ∷ []) "/prices" [] "id-1" 12 (err other) overlapping-Reachable

runtime_metrics_example : Accounts first_ended ("/prices/latest" ∷ []) (("/prices", 500) ∷ [])
runtime_metrics_example =
    runtime_metrics-Accounts 0 ◌+◌ (Unit {0}) first_ended ("/prices/latest" ∷ [])
      (("/prices", 500) ∷ []) first_ended-Reachable

abbrev by_date : PriceByDateQuery
by_date = record {
  base = record { ticker = "btc_usd"; limit = pos 50; offset = pos 0; sorting = asc };
  timestamp_from = some (pos 100);
  timestamp_to = none;
}

by_date_run : price_by_date_query default_config by_date ≡ ok by_date
unfolding price_by_date_query ticker_with_pagination_query validate_ticker in_supported_ticker_set
    supported_tickers
by_date_run = refl

abbrev backwards : CandleQuery
backwards = record {
  ticker = "btc_usd";
  interval = one_hour;
  timestamp_from = pos 200;
  timestamp_to = pos 100;
}

backwards_run : candle_query default_config backwards ≡ err value_error
unfolding candle_query validate_ticker in_supported_ticker_set supported_tickers
backwards_run = refl
