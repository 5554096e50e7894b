-- ===== src/Tests/Reconciling.antt =====
-- The reconciliation at concrete inputs: `btc_usd` has prices at 100 and 160 only, the time is 200.
use deribit_price_collector.Prelude.{
  inl, inr, arith, ◌≡◌, refl, ◌↔◌, false, some, none, List, [], ◌∷◌,
}
use deribit_price_collector.Prelude.Int.{◌≤ℤ◌, pos, ◌-ℤ◌, ◌*ℤ◌}
use deribit_price_collector.Prelude.Order.{Member}
use deribit_price_collector.Exceptions.{ok}
use deribit_price_collector.Config.{default_config}
use deribit_price_collector.Table.{Price}
use deribit_price_collector.Repository.{get_latest_timestamp, get_timestamps_in_range}
use deribit_price_collector.Repository.Latest.{IsLatest}
use deribit_price_collector.Tasks.Dispatch.{Job, backfill_price_history}
use deribit_price_collector.Providers.{range_value}
use deribit_price_collector.Tasks.Gaps.{resolve_reconciliation_range, has_missing_intervals}
use deribit_price_collector.Tasks.Reconcile.{
  needs_backfill, schedule, effective_lookback, select_tickers, reconcile_recent_prices,
  check_ticker, check_tickers,
}
use deribit_price_collector.Tasks.Reconcile.Health.{IsHealthy, max_gap_of, needs_backfill_iff}
use deribit_price_collector.Tasks.Reconcile.Laws.{Reconciled, reconcile_recent_prices_lem}
use deribit_price_collector.Tests.Memory.{memory, memory-IsEngine, memory-Responds}
use deribit_price_collector.Tests.Env.{rows, rows-IsTable}

abbrev newest : Price
newest = record { id = 2; ticker = "btc_usd"; price = pos 7; timestamp = pos 160; created_at = 0 }

newest-IsLatest : IsLatest rows "btc_usd" (some newest)
newest-IsLatest = (inr (inl refl), refl, λ q m p. at_most q m)
  where
    at_most : (q : Price) → Member q rows → q.timestamp ≤ℤ pos 160
    at_most q (inl h) = rw h (ground arith)
    at_most q (inr (inl h)) = rw h (ground arith)
    at_most q (inr (inr h)) = absurd h

times_run :
    get_timestamps_in_range memory "btc_usd" (pos 90) (pos 200) rows ≡ ok (pos 100 ∷ pos 160 ∷ [])
unfolding get_timestamps_in_range memory
times_run = refl

needs_backfill_example :
    (needs_backfill default_config (pos 200) (some (pos 160)) (pos 100 ∷ pos 160 ∷ []) ≡ false)
    ↔ IsHealthy rows "btc_usd" (pos 90) (pos 200) (max_gap_of default_config)
needs_backfill_example =
    needs_backfill_iff default_config memory rows "btc_usd" (pos 90) (pos 200) (some newest)
      (pos 100 ∷ pos 160 ∷ []) memory-IsEngine rows-IsTable newest-IsLatest times_run

-- `eth_usd` has no price: it is fetched again, over the hour that covers the lookback.
abbrev jobs : List Job
jobs = backfill_price_history ("eth_usd" ∷ []) "1h" ∷ []

reconcile_run :
    reconcile_recent_prices default_config memory (pos 200) none (some (pos 110)) rows ≡ ok jobs
unfolding reconcile_recent_prices check_tickers check_ticker select_tickers get_latest_timestamp
    memory get_timestamps_in_range schedule needs_backfill has_missing_intervals effective_lookback
    range_value resolve_reconciliation_range ◌*ℤ◌ ◌-ℤ◌
reconcile_run = refl

reconcile_recent_prices_example :
    (queued : List Job) × (reconcile_recent_prices default_config memory
        (pos 200)
        none
        (some (pos 110))
        rows
      ≡ ok queued)
    × Reconciled default_config rows (pos 200) none (some (pos 110)) queued
reconcile_recent_prices_example =
    reconcile_recent_prices_lem default_config memory rows (pos 200) none (some (pos 110))
      memory-IsEngine memory-Responds rows-IsTable
