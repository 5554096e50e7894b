-- ===== src/Tests/Routing.antt =====
-- A request for the candles of the two stored prices, from its path to the response.
use deribit_price_collector.Prelude.{ℕ, ◌+◌, ◌≡◌, refl, some, []}
use deribit_price_collector.Prelude.Int.{pos}
use deribit_price_collector.Prelude.Show.{show}
use deribit_price_collector.Exceptions.{ok}
use deribit_price_collector.Config.{default_config}
use deribit_price_collector.Schemas.{one_minute}
use deribit_price_collector.Metrics.{RuntimeMetrics, new_metrics, leave}
use deribit_price_collector.App.{serve, inner, outer}
use deribit_price_collector.Api.Registry.{get_supported_instruments}
use deribit_price_collector.Config.{supported_tickers}
use deribit_price_collector.App.Routes.{
  Request, Server, Moment, handle, route, prices_candles, instruments,
}
use deribit_price_collector.Tests.Memory.{memory}
use deribit_price_collector.Tests.Reports.{reports}
use deribit_price_collector.Tests.Env.{rows}

abbrev server : Server ℕ
server = record {
  config = default_config;
  engine = memory;
  reports = reports;
  zero_ms = 0;
  add = λ a b. a + b;
  divide_by = λ a n. a;
  round_2 = λ a. a;
  fixed_2 = show;
}

abbrev moment : Moment ℕ
moment = record {
  now = pos 200;
  ping = ok tt;
  header = some "abc";
  fresh = "def";
  duration_ms = 3;
  errors = [];
}

abbrev minutes : Request
minutes = prices_candles (record {
  ticker = "btc_usd";
  interval = one_minute;
  timestamp_from = pos 0;
  timestamp_to = pos 200;
})

abbrev fresh_metrics : RuntimeMetrics ℕ
fresh_metrics = new_metrics 0 (λ a b. a + b)

-- A run of the dispatcher.
instruments_run : (handle server moment rows instruments fresh_metrics).0.status_code ≡ 200
unfolding handle serve inner route get_supported_instruments supported_tickers leave outer
instruments_run = refl
