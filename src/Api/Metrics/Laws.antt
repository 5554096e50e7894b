-- ===== src/Api/Metrics/Laws.antt =====
-- What the route /metrics of app/api/endpoints.py replies.
use deribit_price_collector.Prelude.{
  ℕ, String, ◌≡◌, sym, ap, ◌∙◌, ◌⊎◌, inl, inr, Option, none, some, length, ◌<◌, ltb, true, false,
  refl, arith,
}
use deribit_price_collector.Prelude.Int.{ℤ, pos, pos_part, ◌-ℤ◌, ◌≤ℤ◌, ◌<ℤ◌}
use deribit_price_collector.Prelude.Dict.{lookup}
use deribit_price_collector.Exceptions.{Exn, ok, err, Result-cases, >>=-eq-ok, ok_eq}
use deribit_price_collector.Table.{Price, Table}
use deribit_price_collector.Table.Unique.{IsTable}
use deribit_price_collector.Repository.Latest.{IsLatest}
use deribit_price_collector.Repository.Aggregates.{
  Reports, IsReports, or_zero, get_total_prices_count, get_counts_by_ticker,
  get_latest_prices_by_ticker,
}
use deribit_price_collector.Repository.Aggregates.Laws.{
  IsCount, get_counts_by_ticker_lem, get_latest_prices_by_ticker_lem,
}
use deribit_price_collector.Metrics.{RuntimeMetrics}
use deribit_price_collector.Metrics.Snapshot.{
  BusinessSnapshot, RuntimeSnapshot, snapshot, build_business_metrics_snapshot, entry_for,
  LatestPrice, str_of_price, lookup-latest,
}
use deribit_price_collector.Api.Replies.{Reply, answer, raised, exception}
use deribit_price_collector.Api.Metrics.{MetricsReply, get_runtime_metrics}

-- What is listed of a ticker's newest row: the seconds since then are none if it is in the future.
pub record IsEntryOf (now : ℤ) (r : Price) (l : LatestPrice) : Type 0 where
  pub priced : l.price ≡ str_of_price r.price
  pub timed : l.timestamp ≡ r.timestamp
  pub past : r.timestamp ≤ℤ now → pos l.freshness_seconds ≡ now -ℤ r.timestamp
  pub future : now <ℤ r.timestamp → l.freshness_seconds ≡ 0

-- A ticker is listed if it has a row.
abbrev pub IsEntry : ℤ → Option Price → Option LatestPrice → Type 0
IsEntry now none none = Unit
IsEntry now none (some l) = ⊥
IsEntry now (some r) none = ⊥
IsEntry now (some r) (some l) = IsEntryOf now r l

-- What the snapshot says of the stored prices.
pub record IsBusiness (t : Table) (now : ℤ) (s : BusinessSnapshot) : Type 0 where
  pub total : s.total_prices ≡ length t
  pub counts : (ticker : String) → IsCount t ticker (lookup ticker s.counts_by_ticker)
  pub latest :
      (ticker : String)
      → (found : Option Price) × IsLatest t ticker found
        × IsEntry now found (lookup ticker s.latest_prices)

-- What it says of the requests: the counters as they are, and the average of the durations, rounded,
-- over the requests that are completed, if there is one.
pub record IsRuntime {F : Type 0} (zero_ms : F) (divide_by : F → ℕ → F) (round_2 : F → F)
    (m : RuntimeMetrics F) (s : RuntimeSnapshot F) : Type 0 where
  pub in_progress : s.requests_in_progress ≡ m.requests_in_progress
  pub total : s.requests_total ≡ m.requests_total
  pub failed : s.requests_failed ≡ m.requests_failed
  pub by_path : s.path_counts ≡ m.path_counts
  pub by_status : s.status_counts ≡ m.status_counts
  pub average :
      0 < m.requests_total
      → s.average_request_duration_ms
        ≡ round_2 (divide_by m.request_durations_ms_total m.requests_total)
  pub no_average : m.requests_total ≡ 0 → s.average_request_duration_ms ≡ round_2 zero_ms

pub snapshot-IsRuntime :
    {F : Type 0} (zero_ms : F) (divide_by : F → ℕ → F) (round_2 : F → F) (m : RuntimeMetrics F)
    → IsRuntime zero_ms divide_by round_2 m (snapshot zero_ms divide_by round_2 m)
unfolding snapshot
snapshot-IsRuntime zero_ms divide_by round_2 m = record {
  in_progress = refl;
  total = refl;
  failed = refl;
  by_path = refl;
  by_status = refl;
  average = λ h. let e : ltb 0 m.requests_total ≡ true = ground arith in rw e;
  no_average = λ h. let e : ltb 0 m.requests_total ≡ false = ground arith in rw e;
}

latest_entry-past :
    (now : ℤ) (r : Price)
    → r.timestamp ≤ℤ now
    → pos (pos_part (now -ℤ r.timestamp)) ≡ now -ℤ r.timestamp
unfolding ◌-ℤ◌
latest_entry-past now r h = ground arith

latest_entry-future : (now : ℤ) (r : Price) → now <ℤ r.timestamp → pos_part (now -ℤ r.timestamp) ≡ 0
unfolding ◌-ℤ◌
latest_entry-future now r h = ground arith

entry_for-IsEntry : (now : ℤ) (found : Option Price) → IsEntry now found (entry_for now found)
entry_for-IsEntry now none = tt
entry_for-IsEntry now (some r) = record {
  priced = refl;
  timed = refl;
  past = latest_entry-past now r;
  future = latest_entry-future now r;
}

-- How the route ends.
pub data MetricsEnd {F : Type 0} (d : Reports) (t : Table) (now : ℤ)
    (Runtime : RuntimeSnapshot F → Type 0) : Reply (MetricsReply F) → Type 0 where
  failed :
      (x : Exn)
      → (get_total_prices_count d t ≡ err x)
        ⊎ (get_counts_by_ticker d t ≡ err x)
        ⊎ (get_latest_prices_by_ticker d t ≡ err x)
      → MetricsEnd d t now Runtime (raised (exception x))
  replied :
      (reply : MetricsReply F)
      → Runtime reply.runtime
      → IsBusiness t now reply.business
      → MetricsEnd d t now Runtime (answer reply)

total_of :
    (d : Reports) (t : Table) (n : ℕ)
    → IsReports d
    → get_total_prices_count d t ≡ ok n
    → n ≡ length t
unfolding get_total_prices_count
total_of d t n law h =
    let (result, p, k) = >>=-eq-ok (d.count t) _ h in
    sym (ok_eq k) ∙ ap or_zero (law.counted t result p)

-- `GET /metrics` ends in one of two ways: a failure of one of its three queries is raised as it is; else
-- the reply has the counters of the requests as they are, the rounded average of the durations over the
-- requests completed, or zero if there is none, and of the stored prices their number, the number of
-- each ticker's rows, and for each ticker with a row the newest one, with the seconds since then, or 0
-- if it is in the future; no other ticker is listed.
pub get_runtime_metrics-MetricsEnd :
    {F : Type 0} (zero_ms : F) (divide_by : F → ℕ → F) (round_2 : F → F) (d : Reports) (now : ℤ)
    (m : RuntimeMetrics F) (t : Table)
    → IsReports d
    → IsTable t
    → MetricsEnd d t now
        (IsRuntime zero_ms divide_by round_2 m)
        (get_runtime_metrics zero_ms divide_by round_2 d now m t)
unfolding get_runtime_metrics build_business_metrics_snapshot
get_runtime_metrics-MetricsEnd zero_ms divide_by round_2 d now m t law v =
    elim (Result-cases (get_total_prices_count d t)) [
      | inr (x, p) ↦ rw p (failed x (inl p))
      | inl (total, p) ↦ elim (Result-cases (get_counts_by_ticker d t)) [
        | inr (x, q) ↦ rw (p, q) (failed x (inr (inl q)))
        | inl (counts, q) ↦ elim (Result-cases (get_latest_prices_by_ticker d t)) [
          | inr (x, r) ↦ rw (p, q, r) (failed x (inr (inr r)))
          | inl (latest, r) ↦
              rw (p, q, r)
                (replied _ (snapshot-IsRuntime zero_ms divide_by round_2 m) (record {
                  total = total_of d t total law p;
                  counts = get_counts_by_ticker_lem d law t counts q;
                  latest = λ ticker. (
                    lookup ticker latest,
                    get_latest_prices_by_ticker_lem d law t latest v r ticker,
                    rw (lookup-latest now ticker latest)
                        (entry_for-IsEntry now (lookup ticker latest)),
                  );
                }))
        ]
      ]
    ]
