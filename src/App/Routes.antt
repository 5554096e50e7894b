-- ===== src/App/Routes.antt =====
-- app/api/endpoints.py as app/main.py includes it: every route by its path, from the request to the
-- response. The session of a route only reads.
pub mod Ends
pub mod Laws
use deribit_price_collector.Prelude.{ℕ, String, ◌≡◌, ◌⊎◌, Option, List}
use deribit_price_collector.Prelude.Int.{ℤ}
use deribit_price_collector.Exceptions.{Result}
use deribit_price_collector.Config.{Config}
use deribit_price_collector.Table.{Table}
use deribit_price_collector.Table.Engine.{Engine}
use deribit_price_collector.Repository.Aggregates.{Reports}
use deribit_price_collector.Schemas.{
  TickerWithPaginationQuery, PriceByDateQuery, CandleQuery, PriceSummaryQuery,
}
use deribit_price_collector.Services.Candles.{CandleResponse}
use deribit_price_collector.Services.Summary.{PriceSummaryResponse}
use deribit_price_collector.Metrics.{RuntimeMetrics, Response, on_request_start}
use deribit_price_collector.Api.Replies.{Reply, answer, PriceResponse, ◌>>=◌}
use deribit_price_collector.Api.Prices
use deribit_price_collector.Api.Registry
use deribit_price_collector.Api.Registry.{InstrumentResponse, ProviderResponse}
use deribit_price_collector.Api.Metrics
use deribit_price_collector.Api.Metrics.{MetricsReply}
use deribit_price_collector.App.{serve}
use deribit_price_collector.App.Errors.{ErrorItem, ErrorResponse}

-- A request: its route, with what pydantic is given to build the query.
pub data Request : Type 0 where
  healthz readyz metrics metrics_prometheus : Request
  instruments instruments_details providers providers_active : Request
  prices : TickerWithPaginationQuery → Request
  prices_latest : String → Request
  prices_by_date : PriceByDateQuery → Request
  prices_candles : CandleQuery → Request
  prices_summary : PriceSummaryQuery → Request

-- What a route answers.
pub data Payload (F : Type 0) : Type 0 where
  status_text plain_text : String → Payload F
  metrics_reply : MetricsReply F → Payload F
  tickers : List String → Payload F
  instrument_list : List InstrumentResponse → Payload F
  provider_list : List ProviderResponse → Payload F
  provider : ProviderResponse → Payload F
  price_list : List PriceResponse → Payload F
  price : PriceResponse → Payload F
  candle_list : List CandleResponse → Payload F
  summary : PriceSummaryResponse → Payload F

-- The paths, with the prefix of the router.
unfoldable pub path_of : Request → String
path_of healthz = "/api/v1/healthz"
path_of readyz = "/api/v1/readyz"
path_of metrics = "/api/v1/metrics"
path_of metrics_prometheus = "/api/v1/metrics/prometheus"
path_of instruments = "/api/v1/instruments"
path_of instruments_details = "/api/v1/instruments/details"
path_of providers = "/api/v1/providers"
path_of providers_active = "/api/v1/providers/active"
path_of (prices q) = "/api/v1/prices"
path_of (prices_latest q) = "/api/v1/prices/latest"
path_of (prices_by_date q) = "/api/v1/prices/by-date"
path_of (prices_candles q) = "/api/v1/prices/candles"
path_of (prices_summary q) = "/api/v1/prices/summary"

-- What the server runs with: the settings, the database, and the arithmetic and text of durations.
pub record Server (F : Type 0) : Type 0 where
  pub config : Config
  pub engine : Engine
  pub reports : Reports
  pub zero_ms : F
  pub add : F → F → F
  pub divide_by : F → ℕ → F
  pub round_2 : F → F
  pub fixed_2 : F → String

-- What a request finds and what is drawn for it: the clock, the answer to the ping, the header with its id or
-- a fresh one, its duration, and the errors that pydantic reports for its query.
pub record Moment (F : Type 0) : Type 0 where
  pub now : ℤ
  pub ping : Result (Unit {0})
  pub header : Option String
  pub fresh : String
  pub duration_ms : F
  pub errors : List ErrorItem

abbrev pub wrapped : {A P : Type 0} → (A → P) → Reply A → Reply P
wrapped wrap reply = do value ← reply; answer (wrap value)

module _ {F : Type 0} (s : Server F) (k : Moment F) (t : Table) where
  -- The handler of each route, on the counters as they are then.
  unfoldable pub route : RuntimeMetrics F → Request → Reply (Payload F)
  route m healthz = wrapped status_text Registry.healthcheck
  route m readyz = wrapped status_text (Registry.readiness_check k.ping)
  route m metrics =
      wrapped metrics_reply
        (Metrics.get_runtime_metrics s.zero_ms s.divide_by s.round_2 s.reports k.now m t)
  route m metrics_prometheus =
      wrapped plain_text (Metrics.get_runtime_metrics_prometheus s.fixed_2 s.reports k.now m t)
  route m instruments = wrapped tickers (Registry.get_supported_instruments s.config)
  route m instruments_details =
      wrapped instrument_list (Registry.get_supported_instrument_details s.config)
  route m providers = wrapped provider_list (Registry.get_supported_providers s.config)
  route m providers_active = wrapped provider (Registry.get_active_provider s.config)
  route m (prices q) = wrapped price_list (Prices.get_all_prices s.config s.engine q t)
  route m (prices_latest q) = wrapped price (Prices.get_latest_price s.config s.engine q t)
  route m (prices_by_date q) = wrapped price_list (Prices.get_prices_by_date s.config s.engine q t)
  route m (prices_candles q) = wrapped candle_list (Prices.get_price_candles s.config s.engine q t)
  route m (prices_summary q) = wrapped summary (Prices.get_price_summary s.config s.engine q t)

  -- A request that no other runs beside: it is counted as in progress before its route runs.
  unfoldable pub handle :
      Request → RuntimeMetrics F → Response (Payload F ⊎ ErrorResponse) × RuntimeMetrics F
  unfolding path_of route
  handle r m =
      serve s.zero_ms s.add (path_of r) k.header k.fresh k.duration_ms k.errors
        (route (on_request_start s.zero_ms s.add (path_of r) m) r) m
