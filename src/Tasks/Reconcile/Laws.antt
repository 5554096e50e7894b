-- ===== src/Tasks/Reconcile/Laws.antt =====
-- Which tickers `reconcile_recent_prices` schedules, and for which range.
use deribit_price_collector.Prelude.{
  String, ◌≡◌, refl, sym, ◌∙◌, ◌↔◌, Bool, true, false, Option, none, some, ◌≢◌, Bool-cases, inl,
  inr, List, [], ◌∷◌, ◌++◌, append-nil, map, append_assoc, if◌then◌else◌,
}
use deribit_price_collector.Prelude.Int.{ℤ, pos, ◌-ℤ◌, eq_ℤ, eq_ℤ_iff}
use deribit_price_collector.Exceptions.{ok, >>=-eq-ok, ok_eq}
use deribit_price_collector.Config
use deribit_price_collector.Config.{Config}
use deribit_price_collector.Providers.{HistoryRange, range_value}
use deribit_price_collector.Table.{Price, Table}
use deribit_price_collector.Table.Engine.{Engine, IsEngine}
use deribit_price_collector.Table.Unique.{IsTable}
use deribit_price_collector.Repository.{get_latest_timestamp, get_timestamps_in_range, latest_stmt}
use deribit_price_collector.Repository.Queries.{range_stmt}
use deribit_price_collector.Repository.Latest.{
  get_latest_timestamp_inv, get_latest_timestamp_lem, time_of,
}
use deribit_price_collector.Tasks.Dispatch.{Job, backfill_price_history}
use deribit_price_collector.Tasks.Gaps.{resolve_reconciliation_range}
use deribit_price_collector.Tasks.Gaps.Laws.{Within, resolve_reconciliation_range-Within}
use deribit_price_collector.Tasks.Fetch.Laws.{Responds, Runs}
use deribit_price_collector.Tasks.Reconcile.{
  check_ticker, check_tickers, schedule, reconcile_recent_prices, select_tickers,
  effective_lookback, needs_backfill,
}
use deribit_price_collector.Tasks.Reconcile.Found.{Found, end, gap, healthy}
use deribit_price_collector.Tasks.Reconcile.Health.{IsHealthy, max_gap_of, needs_backfill_iff}

module _ (c : Config) (e : Engine) (law : IsEngine e) (t : Table) (v : IsTable t) (lo now : ℤ) where
  pub check_ticker_iff :
      (ticker : String) (missing : Bool)
      → check_ticker c e now lo t ticker ≡ ok missing
      → (missing ≡ false) ↔ IsHealthy t ticker lo now (max_gap_of c)
  unfolding check_ticker
  check_ticker_iff ticker missing h =
      let (latest, p, q) = >>=-eq-ok (get_latest_timestamp e ticker t) _ h in
      let (times, p', q') = >>=-eq-ok (get_timestamps_in_range e ticker lo now t) _ q in
      let (found, same, l) = get_latest_timestamp_inv e law t ticker latest p in
      rw (← ok_eq q', ← same) (needs_backfill_iff c e t ticker lo now found times law v l p')

  check_tickers-Found :
      (tickers so_far out : List String)
      → check_tickers c e now lo t tickers so_far ≡ ok out
      → (found : List String) × (out ≡ so_far ++ found)
        × Found t lo now (max_gap_of c) tickers found
  unfolding check_tickers
  check_tickers-Found [] so_far out h = ([], sym (ok_eq h) ∙ sym (append-nil so_far), end)
  check_tickers-Found (ticker ∷ tickers) so_far out h =
      let (missing, p, q) = >>=-eq-ok (check_ticker c e now lo t ticker) _ h in
      go missing (check_ticker_iff ticker missing p)
        (check_tickers-Found tickers (if missing then so_far ++ ticker ∷ [] else so_far) out q)
    where
      go :
          (missing : Bool)
          → (missing ≡ false) ↔ IsHealthy t ticker lo now (max_gap_of c)
          → (found : List String) × (out
              ≡ (if missing then so_far ++ ticker ∷ [] else so_far) ++ found)
            × Found t lo now (max_gap_of c) tickers found
          → (found : List String) × (out ≡ so_far ++ found)
            × Found t lo now (max_gap_of c) (ticker ∷ tickers) found
      go true iff (found, p, f) =
          (ticker ∷ found, p ∙ append_assoc so_far (ticker ∷ []) found, gap (λ k. cc (iff.1 k)) f)
      go false iff (found, p, f) = (found, p, healthy (iff.0 refl) f)

-- If every query is answered, the checks run to their end.
module _ (c : Config) (e : Engine) (law : IsEngine e) (up : Responds e) (t : Table)
    (lo now : ℤ) where
  get_timestamps_in_range-Runs :
      (ticker : String) → Runs (get_timestamps_in_range e ticker lo now t)
  unfolding get_timestamps_in_range
  get_timestamps_in_range-Runs ticker =
      let (rows, p) = up (range_stmt ticker lo now) t in
      (map (λ (r : Price). r.timestamp) rows, rw p)

  pub check_ticker-Runs : (ticker : String) → Runs (check_ticker c e now lo t ticker)
  unfolding check_ticker
  check_ticker-Runs ticker =
      let (rows, p) = up (latest_stmt e ticker) t in
      let (found, q, l) = get_latest_timestamp_lem e law t ticker rows p in
      let (times, r) = get_timestamps_in_range-Runs ticker in
      (needs_backfill c now (time_of found) times, rw (q, r))

  check_tickers-Runs :
      (tickers so_far : List String) → Runs (check_tickers c e now lo t tickers so_far)
  unfolding check_tickers
  check_tickers-Runs [] so_far = (so_far, refl)
  check_tickers-Runs (ticker ∷ tickers) so_far =
      let (missing, p) = check_ticker-Runs ticker in rw p (check_tickers-Runs tickers _)

pub reconcile-schedule :
    (c : Config) (e : Engine) (t : Table) (now : ℤ) (tickers : Option (List String))
    (lookback_seconds : Option ℤ)
    → IsEngine e
    → Responds e
    → IsTable t
    → (found : List String) × (reconcile_recent_prices c e now tickers lookback_seconds t
        ≡ ok (schedule (effective_lookback c lookback_seconds) found))
      × Found t
          (now -ℤ effective_lookback c lookback_seconds)
          now
          (max_gap_of c)
          (select_tickers c tickers)
          found
unfolding reconcile_recent_prices
reconcile-schedule c e t now tickers lookback_seconds law up v =
    let lo : ℤ = now -ℤ effective_lookback c lookback_seconds in
    let (out, p) = check_tickers-Runs c e law up t lo now (select_tickers c tickers) [] in
    let (found, s, f) =
      check_tickers-Found c e law t v lo now (select_tickers c tickers) [] out p in
    (found, rw (p, s), f)

-- The tickers to look at: those that are given, and the configured ones if none is.
abbrev pub IsSelected : Config → Option (List String) → List String → Type 0
IsSelected c none selected = selected ≡ c.tickers
IsSelected c (some []) selected = selected ≡ c.tickers
IsSelected c (some (t ∷ ts)) selected = selected ≡ t ∷ ts

-- How far to look back: as given, and as configured if that is nothing or 0.
abbrev pub IsLookback : Config → Option ℤ → ℤ → Type 0
IsLookback c none n = n ≡ c.reconciliation_lookback_sec
IsLookback c (some k) n = (k ≡ pos 0 → n ≡ c.reconciliation_lookback_sec) × (k ≢ pos 0 → n ≡ k)

-- The jobs for the tickers that were found: none, or one backfill of them all over the range that fits.
pub data Scheduled (lookback : ℤ) : List String → List Job → Type 0 where
  nothing : Scheduled lookback [] []
  backfill :
      (r : HistoryRange) {ticker : String} {tickers : List String}
      → Within lookback r
      → Scheduled lookback
          (ticker ∷ tickers)
          (backfill_price_history (ticker ∷ tickers) (range_value r) ∷ [])

-- What a reconciliation has looked at, found and queued.
pub record Reconciled (c : Config) (t : Table) (now : ℤ) (tickers : Option (List String))
    (lookback_seconds : Option ℤ) (jobs : List Job) : Type 0 where
  pub selected : List String
  pub lookback : ℤ
  pub found : List String
  pub is_selected : IsSelected c tickers selected
  pub is_lookback : IsLookback c lookback_seconds lookback
  pub checked : Found t (now -ℤ lookback) now (max_gap_of c) selected found
  pub scheduled : Scheduled lookback found jobs

schedule-Scheduled :
    (lookback : ℤ) (found : List String) → Scheduled lookback found (schedule lookback found)
unfolding schedule
schedule-Scheduled lookback [] = nothing
schedule-Scheduled lookback (ticker ∷ tickers) =
    backfill (resolve_reconciliation_range lookback) (resolve_reconciliation_range-Within lookback)

select_tickers-IsSelected :
    (c : Config) (tickers : Option (List String)) → IsSelected c tickers (select_tickers c tickers)
unfolding select_tickers Config.supported_tickers
select_tickers-IsSelected c none = refl
select_tickers-IsSelected c (some []) = refl
select_tickers-IsSelected c (some (t ∷ ts)) = refl

effective_lookback-IsLookback :
    (c : Config) (lookback_seconds : Option ℤ)
    → IsLookback c lookback_seconds (effective_lookback c lookback_seconds)
unfolding effective_lookback
effective_lookback-IsLookback c none = refl
effective_lookback-IsLookback c (some k) = (
  λ h. let e = (eq_ℤ_iff k (pos 0)).1 h in rw e,
  λ h. elim (Bool-cases (eq_ℤ k (pos 0))) [
    | inl e ↦ absurd (h ((eq_ℤ_iff k (pos 0)).0 e))
    | inr e ↦ rw e
  ],
)

-- If the database answers, a reconciliation returns. It looks at the tickers that are given, or at the
-- configured ones if none is, from the lookback before now up to now; the lookback is the one given, or
-- the configured one if that is nothing or 0. It has queued one backfill, of exactly those of the tickers
-- whose history in this window is not healthy, in their order, over the range that fits the lookback:
-- an hour, a day, two days, 31 or 366 days at most, or all; and nothing if every ticker is healthy.
pub reconcile_recent_prices_lem :
    (c : Config) (e : Engine) (t : Table) (now : ℤ) (tickers : Option (List String))
    (lookback_seconds : Option ℤ)
    → IsEngine e
    → Responds e
    → IsTable t
    → (jobs : List Job) × (reconcile_recent_prices c e now tickers lookback_seconds t ≡ ok jobs)
      × Reconciled c t now tickers lookback_seconds jobs
reconcile_recent_prices_lem c e t now tickers lookback_seconds law up v =
    let (found, p, f) = reconcile-schedule c e t now tickers lookback_seconds law up v in
    (
      schedule (effective_lookback c lookback_seconds) found,
      p,
      record {
        selected = select_tickers c tickers;
        lookback = effective_lookback c lookback_seconds;
        found = found;
        is_selected = select_tickers-IsSelected c tickers;
        is_lookback = effective_lookback-IsLookback c lookback_seconds;
        checked = f;
        scheduled = schedule-Scheduled (effective_lookback c lookback_seconds) found;
      },
    )
