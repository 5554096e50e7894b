-- ===== src/Tests/Reports.antt =====
-- The aggregate reads over the database in memory, and the metrics routes at concrete inputs.
use Prim.Native.String.{◌++◌}
use deribit_price_collector.Prelude.{
  ℕ, ◌+◌, String, ◌≡◌, refl, sym, ap, ◌∙◌, ◌↔◌, Bool, true, not, ◌||◌, Bool-cases, some, [], ◌∷◌,
  map, filter, all, length, str_eq, str_eq_iff, inl, inr, arith,
}
use deribit_price_collector.Prelude.Int.{pos, leb_ℤ, ◌+ℤ◌, ◌-ℤ◌}
use deribit_price_collector.Prelude.Dict.{dict_of}
use deribit_price_collector.Metrics.Counting.{increment}
use deribit_price_collector.Prelude.Order.{
  Member, Member-map, map-Member, Member-filter, filter-Member,
}
use deribit_price_collector.Prelude.Show.{show}
use deribit_price_collector.Exceptions.{ok, ok_eq}
use deribit_price_collector.Table.{Price, Table}
use deribit_price_collector.Repository.Aggregates.{
  Reports, IsReports, IsNewest, rows_of, get_total_prices_count, get_counts_by_ticker,
  get_latest_prices_by_ticker,
}
use deribit_price_collector.Metrics.{RuntimeMetrics, new_metrics, on_request_start}
use deribit_price_collector.Metrics.Snapshot.{str_of_price, build_business_metrics_snapshot}
use deribit_price_collector.Metrics.Prometheus.{business_snapshot_to_prometheus, to_prometheus}
use deribit_price_collector.Api.Replies.{answer}
use deribit_price_collector.Api.Metrics.{get_runtime_metrics, get_runtime_metrics_prometheus}
use deribit_price_collector.Api.Metrics.Laws.{MetricsEnd, IsRuntime, get_runtime_metrics-MetricsEnd}
use deribit_price_collector.Tests.Env.{rows, rows-IsTable}

not_later : Price → Price → Bool
not_later r q = not (str_eq q.ticker r.ticker) || leb_ℤ q.timestamp r.timestamp

all_members :
    (p : Price → Bool) (t : Table) → all p t ≡ true → (q : Price) → Member q t → p q ≡ true
all_members p [] h q m = absurd m
all_members p (x ∷ t) h q (inl e) = ap p e ∙ (ground (arith, h))
all_members p (x ∷ t) h q (inr m) = all_members p t (ground (arith, h)) q m

all_of_members :
    (p : Price → Bool) (t : Table) → ((q : Price) → Member q t → p q ≡ true) → all p t ≡ true
all_of_members p [] h = refl
all_of_members p (x ∷ t) h = rw (h x (inl refl)) (all_of_members p t (λ q m. h q (inr m)))

IsNewest_iff : (t : Table) (r : Price) → (all (not_later r) t ≡ true) ↔ IsNewest t r
unfolding not_later
IsNewest_iff t r = (
  λ h q m p.
      let e = all_members (not_later r) t h q m in
      let k = (str_eq_iff q.ticker r.ticker).1 p in ground arith,
  λ h. all_of_members (not_later r) t (λ q m. elim (Bool-cases (str_eq q.ticker r.ticker)) [
    | inl e ↦ let k = h q m ((str_eq_iff q.ticker r.ticker).0 e) in ground arith
    | inr e ↦ rw e
  ]),
)

unfoldable pub reports : Reports
unfolding not_later
reports = record {
  count = λ t. ok (some (length t));
  counts = λ t. ok (map (λ (r : Price). (r.ticker, length (rows_of r.ticker t))) t);
  latest = λ t. ok (filter (λ r. all (not_later r) t) t);
}

group_of : Table → Price → String × ℕ
group_of t r = (r.ticker, length (rows_of r.ticker t))

pub reports-IsReports : IsReports reports
unfolding reports group_of
reports-IsReports = record {
  counted = λ t n h. sym (ok_eq h);
  grouped = λ t groups ticker n h. (
    λ m.
        let (r, k, e) = map-Member (group_of t) (ticker, n) t (rw (ok_eq h) m) in
        (
          ap (λ z. z.1) e ∙ (λ i. length (rows_of (sym (ap (λ z. z.0) e) i) t)),
          (r, k, sym (ap (λ z. z.0) e)),
        ),
    λ g. let (e, (r, m, p)) = g in rw (e, ← p, ← ok_eq h) (Member-map (group_of t) r t m),
  );
  joined = λ t rows r h. (
    λ m.
        let (k, e) = filter-Member (λ q. all (not_later q) t) r t (rw (ok_eq h) m) in
        (k, (IsNewest_iff t r).0 e),
    λ g.
        rw (← ok_eq h)
          (Member-filter (λ q. all (not_later q) t) r t g.0 ((IsNewest_iff t r).1 g.1)),
  );
}

abbrev started : RuntimeMetrics ℕ
started = on_request_start 0 ◌+◌ "/metrics" (new_metrics 0 ◌+◌)

get_runtime_metrics_example :
    MetricsEnd reports rows
      (pos 200)
      (IsRuntime 0 (λ n k. n) (λ n. n) started)
      (get_runtime_metrics 0 (λ n k. n) (λ n. n) reports (pos 200) started rows)
get_runtime_metrics_example =
    get_runtime_metrics-MetricsEnd 0 (λ n k. n) (λ n. n) reports (pos 200) started rows
      reports-IsReports rows-IsTable

prometheus_run :
    get_runtime_metrics_prometheus show reports (pos 200) started rows
    ≡ answer (
        "# HELP app_requests_in_progress Current number of in-progress HTTP requests.\n"
        ++ "# TYPE app_requests_in_progress gauge\n" ++ "app_requests_in_progress 1\n"
        ++ "# HELP app_requests_total Total number of completed HTTP requests.\n"
        ++ "# TYPE app_requests_total counter\n" ++ "app_requests_total 0\n"
        ++ "# HELP app_requests_failed_total Total number of failed HTTP requests.\n"
        ++ "# TYPE app_requests_failed_total counter\n" ++ "app_requests_failed_total 0\n"
        ++ "# HELP app_request_duration_ms_total Total HTTP request processing time in milliseconds.\n"
        ++ "# TYPE app_request_duration_ms_total counter\n" ++ "app_request_duration_ms_total 0\n"
        ++ "app_request_path_total{path=\"/metrics\"} 1\n"
        ++ "# HELP app_prices_stored_total Total number of stored price points.\n"
        ++ "# TYPE app_prices_stored_total gauge\n" ++ "app_prices_stored_total 2\n"
        ++ "app_price_points_total{ticker=\"btc_usd\"} 2\n"
        ++ "app_latest_price_value{ticker=\"btc_usd\"} 7E-8\n"
        ++ "app_latest_price_timestamp{ticker=\"btc_usd\"} 160\n"
        ++ "app_data_freshness_seconds{ticker=\"btc_usd\"} 40\n")
unfolding get_runtime_metrics_prometheus to_prometheus business_snapshot_to_prometheus reports show
    get_total_prices_count get_counts_by_ticker get_latest_prices_by_ticker on_request_start ◌+ℤ◌
    ◌-ℤ◌ new_metrics increment build_business_metrics_snapshot dict_of str_of_price
prometheus_run = refl

price_text_run : str_of_price (pos 6_512_345_000_000) ≡ "65123.45000000"
unfolding str_of_price
price_text_run = refl
