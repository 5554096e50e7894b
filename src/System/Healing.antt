-- ===== src/System/Healing.antt =====
-- A reconciliation, the backfill that it queues, and the rows that the two leave (collector/tasks.py).
use deribit_price_collector.Prelude.{String, ◌≡◌, refl, ap, ◌∙◌, ◌⊎◌, inl, inr, none, List, [], ◌∷◌}
use deribit_price_collector.Prelude.Int.{ℤ, ◌-ℤ◌}
use deribit_price_collector.Prelude.Order.{Member}
use deribit_price_collector.Exceptions.{ok}
use deribit_price_collector.Config
use deribit_price_collector.Config.{Config}
use deribit_price_collector.Providers.{
  HistoryRange, deribit, range_value, build_sync_market_data_provider,
}
use deribit_price_collector.Table.{Table}
use deribit_price_collector.Table.Engine.{IsEngine}
use deribit_price_collector.Table.Unique.{IsTable}
use deribit_price_collector.Client.{Http, get_index_chart_data}
use deribit_price_collector.Tasks.Fetch.Laws.{Responds}
use deribit_price_collector.Tasks.Gaps.{resolve_reconciliation_range}
use deribit_price_collector.Tasks.Gaps.Laws.{Within, Within-unique}
use deribit_price_collector.Tasks.Backfill.{backfill_price_history}
use deribit_price_collector.Tasks.Backfill.Laws.{
  AllExpected, first_transient, backfill_price_history_lem,
}
use deribit_price_collector.Tasks.Reconcile.{
  reconcile_recent_prices, schedule, select_tickers, effective_lookback,
}
use deribit_price_collector.Tasks.Reconcile.Health.{max_gap_of}
use deribit_price_collector.Tasks.Reconcile.Dense.{IsDense}
use deribit_price_collector.Tasks.Reconcile.Healing.{saved_heals, IsHealthy-kept}
use deribit_price_collector.Tasks.Reconcile.Found.{
  Found, AllHealthy, Found-cases, Found-subset, Found-none,
}
use deribit_price_collector.Tasks.Reconcile.Laws.{reconcile-schedule}
use deribit_price_collector.System.{
  Task, World, run_task, follow_up, work, work_through, first_message,
}

-- Charts without gaps for some tickers.
abbrev pub AllDense : Config → Http → HistoryRange → ℤ → ℤ → ℤ → List String → Type 0
AllDense c http r lo now max_gap tickers =
    (ticker : String)
    → Member ticker tickers
    → (points : List (ℤ × ℤ)) × (get_index_chart_data c http ticker r ≡ ok points)
      × IsDense points lo now max_gap

dense-AllExpected :
    (c : Config) (http : Http) (r : HistoryRange) (lo now max_gap : ℤ) (tickers : List String)
    → AllDense c http r lo now max_gap tickers
    → AllExpected c http r tickers × (first_transient c http r tickers ≡ none)
dense-AllExpected c http r lo now max_gap [] d = (tt, refl)
dense-AllExpected c http r lo now max_gap (a ∷ tickers) d =
    let (points, p, dense) = d a (inl refl) in
    let (x, y) = dense-AllExpected c http r lo now max_gap tickers (λ b m. d b (inr m)) in
    ((rw p, x), rw p y)

module _ (c : Config) (w : World) (law : IsEngine w.engine) (up : Responds w.engine) where
  -- Where every configured ticker is healthy, a reconciliation queues nothing.
  nothing_found :
      (t : Table)
      → IsTable t
      → AllHealthy t
          (w.now -ℤ effective_lookback c none)
          w.now
          (max_gap_of c)
          (select_tickers c none)
      → run_task c w Task.reconcile t ≡ (ok [], t)
  unfolding run_task
  nothing_found t v h =
      let (found, p, f) = reconcile-schedule c w.engine t w.now none none law up v in
      rw (p, Found-none t _ _ _ _ found f h) (unfold schedule in refl)

  fetched_again :
      (stored : Table) (found : List String)
      → ((t : Table) → w.engine.commit t ≡ ok tt)
      → build_sync_market_data_provider c ≡ ok deribit
      → IsTable stored
      → Found stored
          (w.now -ℤ effective_lookback c none)
          w.now
          (max_gap_of c)
          (select_tickers c none)
          found
      → AllDense c w.http
          (resolve_reconciliation_range (effective_lookback c none))
          (w.now -ℤ effective_lookback c none)
          w.now
          (max_gap_of c)
          (select_tickers c none)
      → (after : Table) × IsTable after
        × (backfill_price_history c w.http w.engine found
              (range_value (resolve_reconciliation_range (effective_lookback c none)))
              stored
            ≡ (ok tt, after))
        × AllHealthy after
            (w.now -ℤ effective_lookback c none)
            w.now
            (max_gap_of c)
            (select_tickers c none)
  fetched_again stored found commits known v f dense =
      let r = resolve_reconciliation_range (effective_lookback c none) in
      let lo = w.now -ℤ effective_lookback c none in
      let sub = Found-subset stored lo w.now (max_gap_of c) (select_tickers c none) found f in
      let (expected, calm) =
        dense-AllExpected c w.http r lo w.now (max_gap_of c) found (λ a m. dense a (sub a m).0) in
      let (after, saved, p) =
        rw calm at
          (backfill_price_history_lem c w.http w.engine law up r found stored v known expected) in
      let fine : AllHealthy after lo w.now (max_gap_of c) (select_tickers c none) = λ a m.
        elim (Found-cases stored lo w.now (max_gap_of c) (select_tickers c none) found f a m) [
          | inl i ↦
              let (points, q, d) = dense a m in
              saved_heals c w.http w.engine law up r found stored after saved a points lo w.now
                (max_gap_of c) i q d
          | inr h ↦
              IsHealthy-kept c w.http w.engine law up r found stored after saved a lo w.now
                (max_gap_of c) v (λ i. (sub a i).1 h) h
        ] in
      (after, saved.valid, rw (p, commits after), fine)

  -- Two deliveries of the queue that the jobs found leave.
  two_rounds :
      (stored after : Table) (found : List String)
      → reconcile_recent_prices c w.engine w.now none none stored
        ≡ ok (schedule (effective_lookback c none) found)
      → backfill_price_history c w.http w.engine found
          (range_value (resolve_reconciliation_range (effective_lookback c none)))
          stored
        ≡ (ok tt, after)
      → (found ≡ [])
        ⊎ (work_through c
              (w ∷ w ∷ [])
              (record { queue = first_message Task.reconcile ∷ []; stored = stored })
            ≡ record { queue = []; stored = after })
  unfolding work_through work run_task follow_up schedule
  two_rounds stored after [] p q = inl refl
  two_rounds stored after (a ∷ found) p q = inr (rw (p, q))

  no_round :
      (stored : Table)
      → reconcile_recent_prices c w.engine w.now none none stored
        ≡ ok (schedule (effective_lookback c none) [])
      → work_through c
          (w ∷ w ∷ [])
          (record { queue = first_message Task.reconcile ∷ []; stored = stored })
        ≡ record { queue = []; stored = stored }
  unfolding work_through work run_task follow_up schedule
  no_round stored p = rw p

  healed :
      (stored : Table)
      → ((t : Table) → w.engine.commit t ≡ ok tt)
      → build_sync_market_data_provider c ≡ ok deribit
      → IsTable stored
      → AllDense c w.http
          (resolve_reconciliation_range (effective_lookback c none))
          (w.now -ℤ effective_lookback c none)
          w.now
          (max_gap_of c)
          (select_tickers c none)
      → (after : Table) × IsTable after
        × (work_through c
              (w ∷ w ∷ [])
              (record { queue = first_message Task.reconcile ∷ []; stored = stored })
            ≡ record { queue = []; stored = after })
        × AllHealthy after
            (w.now -ℤ effective_lookback c none)
            w.now
            (max_gap_of c)
            (select_tickers c none)
  healed stored commits known v dense =
      let (found, p, f) = reconcile-schedule c w.engine stored w.now none none law up v in
      let (after, valid, q, fine) = fetched_again stored found commits known v f dense in
      elim (two_rounds stored after found p q) [
        | inr h ↦ (after, valid, h, fine)
        | inl e ↦ (
          stored,
          v,
          no_round stored (p ∙ ap (λ z. ok (schedule (effective_lookback c none) z)) e),
          λ a m. elim (Found-cases stored _ _ _ _ found f a m) [
            | inl i ↦ absurd (rw e at i)
            | inr h ↦ h
          ],
        )
      ]

  -- A reconciliation heals the collector. Where the database answers and commits and the provider is
  -- known, take any valid rows, a queue with one message of the reconciliation, and charts of the range
  -- that fits the configured lookback, which have no gap from the lookback before now up to now, for every
  -- configured ticker. Then two deliveries at most empty the queue, and leave valid rows in which the
  -- history of every configured ticker is healthy in this window: its newest price is recent, and no two
  -- neighbours are too far apart. On these rows the same reconciliation queues nothing.
  pub reconciliation_heals :
      (stored : Table) (r : HistoryRange)
      → ((t : Table) → w.engine.commit t ≡ ok tt)
      → build_sync_market_data_provider c ≡ ok deribit
      → IsTable stored
      → Within c.reconciliation_lookback_sec r
      → AllDense c w.http r (w.now -ℤ c.reconciliation_lookback_sec) w.now (max_gap_of c) c.tickers
      → (after : Table) × IsTable after
        × (work_through c
              (w ∷ w ∷ [])
              (record { queue = first_message Task.reconcile ∷ []; stored = stored })
            ≡ record { queue = []; stored = after })
        × AllHealthy after (w.now -ℤ c.reconciliation_lookback_sec) w.now (max_gap_of c) c.tickers
        × (run_task c w Task.reconcile after ≡ (ok [], after))
  unfolding select_tickers Config.supported_tickers effective_lookback
  reconciliation_heals stored r commits known v fits dense =
      let same = Within-unique c.reconciliation_lookback_sec r fits in
      let (after, valid, ran, fine) = healed stored commits known v (rw same dense) in
      (after, valid, ran, fine, nothing_found after valid fine)
