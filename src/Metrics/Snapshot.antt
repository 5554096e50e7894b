-- ===== src/Metrics/Snapshot.antt =====
-- The snapshots of app/core/metrics.py: `build_business_metrics_snapshot` and `RuntimeMetrics.snapshot`.
use Prim.Native.String.{◌++◌}
use deribit_price_collector.Prelude.{
  ℕ, zero, suc, ◌/◌, ◌%◌, String, ◌≡◌, refl, Option, none, some, [], ◌∷◌, map, ltb, str_eq,
  Bool-cases, inl, inr, if◌then◌else◌,
}
use deribit_price_collector.Prelude.Int.{ℤ, pos, negsuc, pos_part, ◌-ℤ◌}
use deribit_price_collector.Prelude.Show.{show}
use deribit_price_collector.Prelude.Dict.{Dict, lookup}
use deribit_price_collector.Table.{Price}
use deribit_price_collector.Metrics.{RuntimeMetrics}
use deribit_price_collector.Metrics.Counting.{Counter}

-- str(Decimal) of a number of units of 10⁻⁸: from 100 units on in eight digits after the point, and with
-- an exponent below.
abbrev eight_digits : ℕ → String
eight_digits n = pad 7 100_000_000 n
  where
    pad : ℕ → ℕ → ℕ → String
    pad zero top n = show n
    pad (suc k) top n =
        let rest = pad k (top / 10) n in if ltb n (top / 10) then "0" ++ rest else show n

unfoldable pub str_of_units : ℕ → String
unfolding show
str_of_units n =
    if ltb n 10
    then show n ++ "E-8"
    else if ltb n 100
    then show (n / 10) ++ "." ++ show (n % 10) ++ "E-7"
    else show (n / 100_000_000) ++ "." ++ eight_digits (n % 100_000_000)

unfoldable pub str_of_price : ℤ → String
unfolding str_of_units
str_of_price (pos n) = str_of_units n
str_of_price (negsuc n) = "-" ++ str_of_units (suc n)

-- An entry of `latest_prices`.
pub record LatestPrice : Type 0 where
  pub price : String
  pub timestamp : ℤ
  pub freshness_seconds : ℕ

pub record BusinessSnapshot : Type 0 where
  pub total_prices : ℕ
  pub counts_by_ticker : Dict ℕ
  pub latest_prices : Dict LatestPrice

abbrev pub latest_entry : ℤ → Price → LatestPrice
latest_entry now_timestamp r = record {
  price = str_of_price r.price;
  timestamp = r.timestamp;
  freshness_seconds = pos_part (now_timestamp -ℤ r.timestamp);
}

-- The keys of a dict differ, so each round of the loop adds an entry. The clock is the first argument.
unfoldable pub build_business_metrics_snapshot : ℤ → ℕ → Dict ℕ → Dict Price → BusinessSnapshot
build_business_metrics_snapshot now_timestamp total_prices counts_by_ticker latest = record {
  total_prices = total_prices;
  counts_by_ticker = counts_by_ticker;
  latest_prices =
      map (λ (item : String × Price). (item.0, latest_entry now_timestamp item.1)) latest;
}

abbrev pub entry_for : ℤ → Option Price → Option LatestPrice
entry_for now none = none
entry_for now (some r) = some (latest_entry now r)

pub lookup-latest :
    (now : ℤ) (ticker : String) (latest : Dict Price)
    → lookup ticker (map (λ (item : String × Price). (item.0, latest_entry now item.1)) latest)
      ≡ entry_for now (lookup ticker latest)
unfolding lookup
lookup-latest now ticker [] = refl
lookup-latest now ticker ((k, r) ∷ latest) = elim (Bool-cases (str_eq k ticker)) [
  | inl e ↦ rw e
  | inr e ↦ rw e (lookup-latest now ticker latest)
]

pub record RuntimeSnapshot (F : Type 0) : Type 0 where
  pub requests_in_progress : ℤ
  pub requests_total : ℕ
  pub requests_failed : ℕ
  pub average_request_duration_ms : F
  pub path_counts : Counter String
  pub status_counts : Counter ℕ

-- The arithmetic of `float` is a parameter.
module _ {F : Type 0} (zero_ms : F) (divide_by : F → ℕ → F) (round_2 : F → F) where
  -- RuntimeMetrics.snapshot
  unfoldable pub snapshot : RuntimeMetrics F → RuntimeSnapshot F
  snapshot m = record {
    requests_in_progress = m.requests_in_progress;
    requests_total = m.requests_total;
    requests_failed = m.requests_failed;
    average_request_duration_ms = round_2 (
        if ltb 0 m.requests_total
        then divide_by m.request_durations_ms_total m.requests_total
        else zero_ms);
    path_counts = m.path_counts;
    status_counts = m.status_counts;
  }
