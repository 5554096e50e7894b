-- ===== src/Metrics/Prometheus.antt =====
-- The text of the metrics for Prometheus: `business_snapshot_to_prometheus` and
-- `RuntimeMetrics.to_prometheus` of app/core/metrics.py.
use Prim.Native.Nat.{Ordering}
use Prim.Native.String.{◌++◌, compare}
use mathlib.Core.List.{◌++◌ as append}
use deribit_price_collector.Prelude.{ℕ, String, Bool, true, false, List, [], ◌∷◌, map}
use deribit_price_collector.Prelude.Show.{show, show_ℤ}
use deribit_price_collector.Prelude.Sort.{sort}
use deribit_price_collector.Prelude.Dict.{Dict}
use deribit_price_collector.Metrics.{RuntimeMetrics}
use deribit_price_collector.Metrics.Snapshot.{LatestPrice, BusinessSnapshot}

-- a <= b, of texts
abbrev not_after : Ordering → Bool
not_after Ordering.lt = true
not_after Ordering.eq = true
not_after Ordering.gt = false

-- sorted(d.items()): the keys of a dict differ, so they alone decide.
abbrev pub sorted_items : {V : Type 0} → Dict V → Dict V
sorted_items {V} d = sort (λ (a : String × V) (b : String × V). not_after (compare a.0 b.0)) d

-- "\n".join(lines) + "\n"
abbrev pub joined : List String → String
joined [] = ""
joined (line ∷ lines) = line ++ "\n" ++ joined lines

-- "<name>{<label>="<key>"} <value>"
abbrev pub sample : String → String → String → String → String
sample name label key value = name ++ "{" ++ label ++ "=\"" ++ key ++ "\"} " ++ value

abbrev count_line : String × ℕ → String
count_line item = sample "app_price_points_total" "ticker" item.0 (show item.1)

abbrev latest_lines : List (String × LatestPrice) → List String
latest_lines [] = []
latest_lines ((ticker, payload) ∷ items) =
    sample "app_latest_price_value" "ticker" ticker payload.price
    ∷ sample "app_latest_price_timestamp" "ticker" ticker (show_ℤ payload.timestamp)
    ∷ sample "app_data_freshness_seconds" "ticker" ticker (show payload.freshness_seconds)
    ∷ latest_lines items

unfoldable pub business_snapshot_to_prometheus : BusinessSnapshot → String
unfolding show show_ℤ
business_snapshot_to_prometheus snapshot = joined (
    "# HELP app_prices_stored_total Total number of stored price points."
    ∷ "# TYPE app_prices_stored_total gauge"
    ∷ ("app_prices_stored_total " ++ show snapshot.total_prices)
    ∷ append (map count_line (sorted_items snapshot.counts_by_ticker))
        (latest_lines (sorted_items snapshot.latest_prices)))

abbrev path_line : String × ℕ → String
path_line item = sample "app_request_path_total" "path" item.0 (show item.1)

abbrev status_line : String × ℕ → String
status_line item = sample "app_request_status_total" "status_group" item.0 (show item.1)

-- The key of a group of status codes as a text.
abbrev status_key : ℕ × ℕ → String × ℕ
status_key item = (show item.0 ++ "xx", item.1)

-- `fixed_2` writes a `float` with two digits after the point.
unfoldable pub to_prometheus : {F : Type 0} → (F → String) → RuntimeMetrics F → String
unfolding show show_ℤ
to_prometheus fixed_2 m = joined (
    "# HELP app_requests_in_progress Current number of in-progress HTTP requests."
    ∷ "# TYPE app_requests_in_progress gauge"
    ∷ ("app_requests_in_progress " ++ show_ℤ m.requests_in_progress)
    ∷ "# HELP app_requests_total Total number of completed HTTP requests."
    ∷ "# TYPE app_requests_total counter"
    ∷ ("app_requests_total " ++ show m.requests_total)
    ∷ "# HELP app_requests_failed_total Total number of failed HTTP requests."
    ∷ "# TYPE app_requests_failed_total counter"
    ∷ ("app_requests_failed_total " ++ show m.requests_failed)
    ∷ "# HELP app_request_duration_ms_total Total HTTP request processing time in milliseconds."
    ∷ "# TYPE app_request_duration_ms_total counter"
    ∷ ("app_request_duration_ms_total " ++ fixed_2 m.request_durations_ms_total)
    ∷ append (map path_line (sorted_items m.path_counts))
        (map status_line (sorted_items (map status_key m.status_counts))))
