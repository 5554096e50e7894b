-- ===== src/Tasks/Reconcile.antt =====
-- collector/tasks.py: `reconcile_recent_prices`, at the time `now_timestamp`. The session only reads.
pub mod Health
pub mod Found
pub mod Laws
pub mod Dense
pub mod Healing
use deribit_price_collector.Prelude.{
  ℕ, String, Bool, true, false, Option, none, some, List, [], ◌∷◌, ◌++◌, if◌then◌else◌,
}
use deribit_price_collector.Prelude.Int.{ℤ, pos, ◌-ℤ◌, ◌*ℤ◌, ltb_ℤ, eq_ℤ}
use deribit_price_collector.Exceptions.{Result, ok, err, ◌>>=◌}
use deribit_price_collector.Config
use deribit_price_collector.Config.{Config}
use deribit_price_collector.Providers.{range_value}
use deribit_price_collector.Table.{Table}
use deribit_price_collector.Table.Engine.{Engine}
use deribit_price_collector.Repository.{get_latest_timestamp, get_timestamps_in_range}
use deribit_price_collector.Tasks.Dispatch.{Job, backfill_price_history}
use deribit_price_collector.Tasks.Gaps.{resolve_reconciliation_range, has_missing_intervals}

-- tickers or list(config.supported_tickers)
unfoldable pub select_tickers : Config → Option (List String) → List String
unfolding Config.supported_tickers
select_tickers c none = Config.supported_tickers c
select_tickers c (some []) = Config.supported_tickers c
select_tickers c (some (t ∷ ts)) = t ∷ ts

-- lookback_seconds or config.RECONCILIATION_LOOKBACK_SEC
unfoldable pub effective_lookback : Config → Option ℤ → ℤ
effective_lookback c none = c.reconciliation_lookback_sec
effective_lookback c (some n) = if eq_ℤ n (pos 0) then c.reconciliation_lookback_sec else n

-- The tests of one round, in their order, on the newest timestamp and on those in the window.
unfoldable pub needs_backfill : Config → ℤ → Option ℤ → List ℤ → Bool
needs_backfill c now_timestamp none timestamps = true
needs_backfill c now_timestamp (some latest_timestamp) timestamps =
    if ltb_ℤ (c.price_fetch_interval_sec *ℤ c.reconciliation_stale_multiplier)
      (now_timestamp -ℤ latest_timestamp)
    then true
    else has_missing_intervals timestamps c.price_fetch_interval_sec
        c.reconciliation_stale_multiplier

module _ (c : Config) (e : Engine) (now_timestamp range_start : ℤ) (t : Table) where
  unfoldable pub check_ticker : String → Result Bool
  check_ticker ticker = do
    latest_timestamp ← get_latest_timestamp e ticker t
    timestamps ← get_timestamps_in_range e ticker range_start now_timestamp t
    ok (needs_backfill c now_timestamp latest_timestamp timestamps)

  -- The loop, with the tickers that are to be fetched again so far.
  unfoldable pub check_tickers : List String → List String → Result (List String)
  check_tickers [] backfill_tickers = ok backfill_tickers
  check_tickers (ticker ∷ tickers) backfill_tickers = do
    missing ← check_ticker ticker
    check_tickers tickers (if missing then backfill_tickers ++ ticker ∷ [] else backfill_tickers)

-- What is scheduled for the tickers that were found.
unfoldable pub schedule : ℤ → List String → List Job
schedule lookback [] = []
schedule lookback (t ∷ ts) =
    backfill_price_history (t ∷ ts) (range_value (resolve_reconciliation_range lookback)) ∷ []

unfoldable pub reconcile_recent_prices :
    Config → Engine → ℤ → Option (List String) → Option ℤ → Table → Result (List Job)
reconcile_recent_prices c e now_timestamp tickers lookback_seconds t = do
  let lookback = effective_lookback c lookback_seconds
  backfill_tickers ←
      check_tickers c e now_timestamp (now_timestamp -ℤ lookback) t (select_tickers c tickers) []
  ok (schedule lookback backfill_tickers)
