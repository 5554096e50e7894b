-- ===== src/Tasks/Reconcile/Healing.antt =====
-- A backfill heals: after it, `reconcile_recent_prices` finds nothing more to do for a ticker whose chart
-- has no gap.
use deribit_price_collector.Prelude.{
  String, ◌≡◌, sym, ap, ◌∙◌, ◌↔◌, inl, inr, false, Option, none, some, List, [], ◌∷◌,
}
use deribit_price_collector.Prelude.Int.{ℤ, ◌≤ℤ◌, int_laws}
use deribit_price_collector.Prelude.Order.{Member}
use deribit_price_collector.Exceptions.{Result, ok, err}
use deribit_price_collector.Config.{Config}
use deribit_price_collector.Providers.{
  HistoryRange, deribit, range_value, build_sync_market_data_provider,
}
use deribit_price_collector.Table.{Price, Table}
use deribit_price_collector.Table.Engine.{Engine, IsEngine}
use deribit_price_collector.Table.Unique.{IsTable}
use deribit_price_collector.Table.Unique.Write.{price_at}
use deribit_price_collector.Table.Unique.Member.{find-Member}
use deribit_price_collector.Repository.{latest_stmt}
use deribit_price_collector.Repository.Queries.{HasPrice}
use deribit_price_collector.Repository.Latest.{IsLatest, get_latest_by_ticker_lem}
use deribit_price_collector.Client.{Http, get_index_chart_data}
use deribit_price_collector.Tasks.Fetch.Laws.{Responds}
use deribit_price_collector.Tasks.Backfill.{backfill_price_history}
use deribit_price_collector.Tasks.Backfill.Loop.{Saved, history, chart_of}
use deribit_price_collector.Tasks.Backfill.Laws.{
  AllExpected, first_transient, backfill_price_history_lem,
}
use deribit_price_collector.Tasks.Reconcile.{check_ticker}
use deribit_price_collector.Tasks.Reconcile.Health.{IsHealthy, max_gap_of}
use deribit_price_collector.Tasks.Reconcile.Laws.{check_ticker_iff, check_ticker-Runs}
use deribit_price_collector.Tasks.Points.{put_all_keeps}
use deribit_price_collector.Tasks.Points.{put_all_cases, points_of-Member, Member-append}
use deribit_price_collector.Tasks.Reconcile.Health.{Continued-iff}
use deribit_price_collector.Tasks.Reconcile.Dense.{
  IsDense, put_all_has, Member-history, HasPrice-of, dense-IsHealthy, HasPrice-Member,
}

-- Every point of a history belongs to one of its tickers.
history-Member :
    (c : Config) (http : Http) (r : HistoryRange) (tickers : List String) (ticker : String)
    (price timestamp : ℤ)
    → Member (ticker, price, timestamp) (history c http r tickers)
    → Member ticker tickers
history-Member c http r [] ticker price timestamp m = absurd m
history-Member c http r (a ∷ tickers) ticker price timestamp m =
    elim (Member-append (ticker, price, timestamp) (chart_of a (get_index_chart_data c http a r))
      (history c http r tickers) m) [
        | inl n ↦ inl (own a (get_index_chart_data c http a r) n)
        | inr n ↦ inr (history-Member c http r tickers ticker price timestamp n)
      ]
  where
    own :
        (a : String) (chart : Result (List (ℤ × ℤ)))
        → Member (ticker, price, timestamp) (chart_of a chart)
        → ticker ≡ a
    own a (ok points) n = (points_of-Member a ticker price timestamp points n).0
    own a (err x) n = absurd n

price_at-of :
    (t : Table) (ticker : String) (n : ℤ)
    → HasPrice t ticker n
    → (price : ℤ) × (price_at t ticker n ≡ some price)
price_at-of t ticker n (r, h) = (r.price, rw h)

module _ (c : Config) (http : Http) (e : Engine) (law : IsEngine e) (up : Responds e)
    (r : HistoryRange) (tickers : List String) (stored after : Table)
    (saved : Saved (history c http r tickers) stored after) where
  newest_after : (ticker : String) → (found : Option Price) × IsLatest after ticker found
  newest_after ticker =
      let (rows, a) = up (latest_stmt e ticker) after in
      let (found, b, l) = get_latest_by_ticker_lem e law after ticker rows a in (found, l)

  -- A ticker whose chart has no gap is healthy afterwards.
  pub saved_heals :
      (ticker : String) (points : List (ℤ × ℤ)) (lo now max_gap : ℤ)
      → Member ticker tickers
      → get_index_chart_data c http ticker r ≡ ok points
      → IsDense points lo now max_gap
      → IsHealthy after ticker lo now max_gap
  saved_heals ticker points lo now max_gap i chart dense =
      let has : (price n : ℤ) → Member (price, n) points → HasPrice after ticker n = λ price n m.
        let (q, k) =
          put_all_has (history c http r tickers) (price_at stored) ticker n price
            (Member-history c http r tickers ticker points price n i chart m) in
        HasPrice-of after ticker n q (saved.view ticker n ∙ k) in
      let (found, l) = newest_after ticker in
      dense-IsHealthy after saved.valid ticker lo now max_gap points has dense found l

  other-HasPrice :
      (ticker : String)
      → ¬ Member ticker tickers
      → (n : ℤ) → HasPrice stored ticker n ↔ HasPrice after ticker n
  other-HasPrice ticker out n = (fwd, bwd)
    where
      fwd : HasPrice stored ticker n → HasPrice after ticker n
      fwd h =
          let (p, k) = price_at-of stored ticker n h in
          let (q, l) = put_all_keeps (history c http r tickers) (price_at stored) ticker n p k in
          HasPrice-of after ticker n q (saved.view ticker n ∙ l)

      bwd : HasPrice after ticker n → HasPrice stored ticker n
      bwd h =
          let (p, k) = price_at-of after ticker n h in
          elim (put_all_cases (history c http r tickers) (price_at stored) ticker n p
            (sym (saved.view ticker n) ∙ k)) [
              | inl m ↦ absurd (out (history-Member c http r tickers ticker p n m))
              | inr l ↦ HasPrice-of stored ticker n p l
            ]

  -- A healthy ticker that is not fetched again stays healthy.
  pub IsHealthy-kept :
      (ticker : String) (lo now max_gap : ℤ)
      → IsTable stored
      → ¬ Member ticker tickers
      → IsHealthy stored ticker lo now max_gap
      → IsHealthy after ticker lo now max_gap
  IsHealthy-kept ticker lo now max_gap v out h =
      let (found, l) = newest_after ticker in kept found l
    where
      both : (n : ℤ) → HasPrice stored ticker n ↔ HasPrice after ticker n
      both = other-HasPrice ticker out

      by_newest :
          (found : Option Price)
          → IsLatest after ticker found
          → (q : Price) → Member q after
          → q.ticker ≡ ticker
          → q.timestamp ≡ h.newest.timestamp
          → IsHealthy after ticker lo now max_gap
      by_newest none l q i e p = absurd (l q i e)
      by_newest (some r') l q i e p =
          let newer : q.timestamp ≤ℤ r'.timestamp = l.2 q i e in
          record {
            newest = r';
            latest = l;
            fresh = omega (int_laws, rw p at newer, h.fresh);
            continued =
                Continued-iff max_gap
                  (λ n. (λ z. (z.0, z.1, (both n).0 z.2), λ z. (z.0, z.1, (both n).1 z.2)))
                  h.continued;
          }

      kept :
          (found : Option Price)
          → IsLatest after ticker found
          → IsHealthy after ticker lo now max_gap
      kept found l =
          let (q, k) =
            (both h.newest.timestamp).0
              (HasPrice-Member stored ticker h.newest v h.latest.0 h.latest.1) in
          let (i, e, p) = find-Member ticker h.newest.timestamp after q k in
          by_newest found l q i e p

-- A backfill heals a ticker. Where the provider is known, the database answers and commits, the client
-- raises only exceptions that the collector expects, none of them transient, and its chart of the ticker
-- has no gap in the window: the backfill returns, the history of the ticker is healthy on the rows
-- that it leaves, and the checks of a reconciliation over that window do not find the ticker.
pub backfill_heals :
    (c : Config) (http : Http) (e : Engine) (r : HistoryRange) (tickers : List String)
    (stored : Table) (ticker : String) (points : List (ℤ × ℤ)) (lo now : ℤ)
    → IsEngine e
    → Responds e
    → ((t : Table) → e.commit t ≡ ok tt)
    → build_sync_market_data_provider c ≡ ok deribit
    → IsTable stored
    → AllExpected c http r tickers
    → first_transient c http r tickers ≡ none
    → Member ticker tickers
    → get_index_chart_data c http ticker r ≡ ok points
    → IsDense points lo now (max_gap_of c)
    → (after : Table) × (backfill_price_history c http e tickers (range_value r) stored
        ≡ (ok tt, after))
      × IsHealthy after ticker lo now (max_gap_of c)
      × (check_ticker c e now lo after ticker ≡ ok false)
backfill_heals c http e r tickers stored ticker points lo now law up commits known v expected calm i
      chart dense =
    let (after, saved, p) =
      rw calm at (backfill_price_history_lem c http e law up r tickers stored v known expected) in
    let healthy =
      saved_heals c http e law up r tickers stored after saved ticker points lo now (max_gap_of c) i
        chart dense in
    let (missing, d) = check_ticker-Runs c e law up after lo now ticker in
    (
      after,
      rw (p, commits after),
      healthy,
      d ∙ ap ok ((check_ticker_iff c e law after saved.valid lo now ticker missing d).1 healthy),
    )
