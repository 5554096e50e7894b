-- ===== src/Metrics.antt =====
-- app/core/metrics.py: `RuntimeMetrics`, and the middleware of app/main.py that feeds it. Each method
-- holds the lock from its first change to its last, so it is one step.
pub mod Counting
pub mod Traces
pub mod Snapshot
pub mod Prometheus
pub mod Laws
use deribit_price_collector.Prelude.{
  ℕ, ◌+◌, ◌/◌, String, Bool, Option, none, some, List, [], ◌∷◌, str_eq, ◌==◌, leb, if◌then◌else◌,
}
use deribit_price_collector.Prelude.Int.{ℤ, pos, ◌+ℤ◌, ◌-ℤ◌}
use deribit_price_collector.Exceptions.{Result, ok, err}
use deribit_price_collector.Metrics.Counting.{Counter, increment}

-- A duration is a `float`, whose type and addition are parameters. The key of a group of status
-- codes, the text `<n>xx`, is kept as its number n.
pub record RuntimeMetrics (F : Type 0) : Type 0 where
  pub requests_in_progress : ℤ
  pub requests_total : ℕ
  pub requests_failed : ℕ
  pub path_counts : Counter String
  pub status_counts : Counter ℕ
  pub request_durations_ms_total : F

-- A response, with a body of any type.
pub record Response (B : Type 0) : Type 0 where
  pub status_code : ℕ
  pub body : B
  pub headers : String → Option String

-- response.headers[name] = value
abbrev pub set_header : {B : Type 0} → String → String → Response B → Response B
set_header name value response = record response {
  headers = λ n. if str_eq n name then some value else response.headers n;
}

module _ {F : Type 0} (zero_ms : F) (add : F → F → F) where
  -- RuntimeMetrics.__init__
  unfoldable pub new_metrics : RuntimeMetrics F
  new_metrics = record {
    requests_in_progress = pos 0;
    requests_total = 0;
    requests_failed = 0;
    path_counts = [];
    status_counts = [];
    request_durations_ms_total = zero_ms;
  }

  unfoldable pub on_request_start : String → RuntimeMetrics F → RuntimeMetrics F
  on_request_start path m = record m {
    requests_in_progress = m.requests_in_progress +ℤ pos 1;
    path_counts = increment str_eq path m.path_counts;
  }

  unfoldable pub on_request_end : String → ℕ → F → RuntimeMetrics F → RuntimeMetrics F
  on_request_end path status_code duration_ms m = record m {
    requests_in_progress = m.requests_in_progress -ℤ pos 1;
    requests_total = m.requests_total + 1;
    requests_failed = if leb 400 status_code then m.requests_failed + 1 else m.requests_failed;
    status_counts = increment ◌==◌ (status_code / 100) m.status_counts;
    request_durations_ms_total = add m.request_durations_ms_total duration_ms;
  }

  -- The middleware after `call_next`: an exception is counted as a 500 and raised again.
  unfoldable pub leave :
      {B : Type 0}
      → String
      → String
      → F
      → Result (Response B)
      → RuntimeMetrics F
      → Result (Response B) × RuntimeMetrics F
  unfolding on_request_end
  leave path request_id duration_ms (err exc) m = (err exc, on_request_end path 500 duration_ms m)
  leave path request_id duration_ms (ok response) m = (
    ok (set_header "X-Request-ID" request_id response),
    on_request_end path response.status_code duration_ms m,
  )
