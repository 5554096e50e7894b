-- ===== src/Tests/Healing.antt =====
-- A reconciliation and the backfill that it queues, on an empty table.
use deribit_price_collector.Prelude.{◌≡◌, refl, arith, false, inl, inr, none, List, [], ◌∷◌}
use deribit_price_collector.Prelude.Int.{ℤ, pos, ◌-ℤ◌, ◌*ℤ◌, ◌≤ℤ◌, int_laws, floor_div}
use deribit_price_collector.Exceptions.{ok}
use deribit_price_collector.Config.{Config, default_config, in_supported_tickers_set}
use deribit_price_collector.Providers.{
  deribit, one_hour, build_sync_market_data_provider, range_value,
}
use deribit_price_collector.Table.{Table}
use deribit_price_collector.Table.Unique.{IsTable}
use deribit_price_collector.Client.{
  fetch, parse_point, parse_points, require_list, get_index_chart_data,
}
use deribit_price_collector.Client.Value.{get, is_number, truncate}
use deribit_price_collector.Tasks.Reconcile.Health.{max_gap_of}
use deribit_price_collector.Tasks.Reconcile.{check_ticker}
use deribit_price_collector.Tasks.Reconcile.Health.{IsHealthy}
use deribit_price_collector.Tasks.Reconcile.Healing.{backfill_heals}
use deribit_price_collector.Tasks.Backfill.{backfill_price_history}
use deribit_price_collector.Tasks.Backfill.Laws.{AllExpected, first_transient}
use deribit_price_collector.Tasks.Reconcile.Found.{AllHealthy}
use deribit_price_collector.Tasks.Reconcile.Dense.{IsDense}
use deribit_price_collector.System.{Task, World, run_task, work_through, first_message}
use deribit_price_collector.System.Healing.{AllDense, reconciliation_heals}
use deribit_price_collector.Tests.Memory.{memory, memory-IsEngine, memory-Responds}
use deribit_price_collector.Tests.Env.{http}

abbrev one_ticker : Config
one_ticker = record default_config {
  tickers = "btc_usd" ∷ [];
  reconciliation_lookback_sec = pos 110;
}

abbrev now_world : World
now_world = record { http = http; engine = memory; now = pos 200 }

abbrev points : List (ℤ × ℤ)
points = (pos 6_500_000_000_000, pos 100) ∷ (pos 6_501_000_000_000, pos 160) ∷ []

near : (n : ℤ) → pos 90 ≤ℤ n → (pos 200 -ℤ n) ≤ℤ pos 120
near n h = omega int_laws

points-IsDense : IsDense points (pos 90) (pos 200) (pos 120)
points-IsDense = record {
  last_price = pos 6_501_000_000_000;
  last = pos 160;
  has_last = inr (inl refl);
  recent = omega int_laws;
  next = λ n a b. inl (near n a);
}

chart : get_index_chart_data one_ticker http "btc_usd" one_hour ≡ ok points
unfolding get_index_chart_data fetch require_list parse_points parse_point is_number truncate
    in_supported_tickers_set get floor_div range_value ◌*ℤ◌
chart = refl

charts-AllDense :
    AllDense one_ticker http one_hour
      (pos 200 -ℤ pos 110)
      (pos 200)
      (max_gap_of one_ticker)
      ("btc_usd" ∷ [])
unfolding ◌-ℤ◌ ◌*ℤ◌
charts-AllDense ticker (inl e) = (points, rw e chart, points-IsDense)
charts-AllDense ticker (inr m) = absurd m

known : build_sync_market_data_provider one_ticker ≡ ok deribit
unfolding build_sync_market_data_provider
known = refl

commits : (t : Table) → memory.commit t ≡ ok tt
unfolding memory
commits t = refl

reconciliation_heals_example :
    (after : Table) × IsTable after
    × (work_through one_ticker
          (now_world ∷ now_world ∷ [])
          (record { queue = first_message Task.reconcile ∷ []; stored = [] })
        ≡ record { queue = []; stored = after })
    × AllHealthy after (pos 200 -ℤ pos 110) (pos 200) (max_gap_of one_ticker) ("btc_usd" ∷ [])
    × (run_task one_ticker now_world Task.reconcile after ≡ (ok [], after))
reconciliation_heals_example =
    reconciliation_heals one_ticker now_world memory-IsEngine memory-Responds [] one_hour commits
      known tt (omega arith) charts-AllDense

one_expected : AllExpected one_ticker http one_hour ("btc_usd" ∷ [])
one_expected = (rw chart, tt)

calm : first_transient one_ticker http one_hour ("btc_usd" ∷ []) ≡ none
calm = rw chart

backfill_heals_example :
    (after : Table) × (backfill_price_history one_ticker http memory
        ("btc_usd" ∷ [])
        (range_value one_hour)
        []
      ≡ (ok tt, after))
    × IsHealthy after "btc_usd" (pos 90) (pos 200) (max_gap_of one_ticker)
    × (check_ticker one_ticker memory (pos 200) (pos 90) after "btc_usd" ≡ ok false)
unfolding ◌*ℤ◌
backfill_heals_example =
    backfill_heals one_ticker http memory one_hour ("btc_usd" ∷ []) [] "btc_usd" points (pos 90)
      (pos 200) memory-IsEngine memory-Responds commits known tt one_expected calm (inl refl) chart
      points-IsDense
