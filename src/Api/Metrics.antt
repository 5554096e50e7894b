-- ===== src/Api/Metrics.antt =====
-- The routes /metrics and /metrics/prometheus of app/api/endpoints.py.
pub mod Laws
use Prim.Native.String.{◌++◌}
use deribit_price_collector.Prelude.{ℕ, String}
use deribit_price_collector.Prelude.Int.{ℤ}
use deribit_price_collector.Exceptions.{Result, ok, err}
use deribit_price_collector.Table.{Table}
use deribit_price_collector.Repository.Aggregates.{
  Reports, get_total_prices_count, get_counts_by_ticker, get_latest_prices_by_ticker,
}
use deribit_price_collector.Metrics.{RuntimeMetrics}
use deribit_price_collector.Metrics.Snapshot.{
  BusinessSnapshot, RuntimeSnapshot, build_business_metrics_snapshot, snapshot,
}
use deribit_price_collector.Metrics.Prometheus.{business_snapshot_to_prometheus, to_prometheus}
use deribit_price_collector.Api.Replies.{Reply, answer, call, ◌>>=◌}

-- The reply of /metrics: the runtime's part and the one under "business".
pub record MetricsReply (F : Type 0) : Type 0 where
  pub runtime : RuntimeSnapshot F
  pub business : BusinessSnapshot

-- What both routes begin with. The clock is read when the snapshot is built.
unfoldable pub business_snapshot : Reports → ℤ → Table → Reply BusinessSnapshot
business_snapshot d now_timestamp t = do
  total_prices ← call (get_total_prices_count d t)
  counts_by_ticker ← call (get_counts_by_ticker d t)
  latest ← call (get_latest_prices_by_ticker d t)
  answer (build_business_metrics_snapshot now_timestamp total_prices counts_by_ticker latest)

unfoldable pub get_runtime_metrics :
    {F : Type 0}
    → F
    → (F → ℕ → F)
    → (F → F)
    → Reports
    → ℤ
    → RuntimeMetrics F
    → Table
    → Reply (MetricsReply F)
unfolding business_snapshot
get_runtime_metrics zero_ms divide_by round_2 d now_timestamp m t = do
  business ← business_snapshot d now_timestamp t
  answer (record { runtime = snapshot zero_ms divide_by round_2 m; business = business })

unfoldable pub get_runtime_metrics_prometheus :
    {F : Type 0} → (F → String) → Reports → ℤ → RuntimeMetrics F → Table → Reply String
unfolding business_snapshot
get_runtime_metrics_prometheus fixed_2 d now_timestamp m t = do
  business ← business_snapshot d now_timestamp t
  answer (to_prometheus fixed_2 m ++ business_snapshot_to_prometheus business)
