-- ===== src/Tasks/Backfill.antt =====
-- collector/tasks.py: `backfill_price_history`. The counter of saved points, which is only logged, is
-- left out.
pub mod Loop
pub mod Laws
pub mod Errors
use deribit_price_collector.Prelude.{String, List, [], ◌∷◌, if◌then◌else◌}
use deribit_price_collector.Prelude.Int.{ℤ}
use deribit_price_collector.Exceptions.{
  Exn, Result, ok, err, batch_permanent, batch_transient, unsupported_range, backfill_failed,
  is_collection_permanent, is_collection_transient, is_value_error, ◌>>=◌,
}
use deribit_price_collector.Config.{Config}
use deribit_price_collector.Providers.{
  HistoryRange, range_of_value, build_sync_market_data_provider,
}
use deribit_price_collector.Table.{Table}
use deribit_price_collector.Table.Engine.{Engine}
use deribit_price_collector.Repository.{save_price}
use deribit_price_collector.Client.{Http, get_index_chart_data}
use deribit_price_collector.Tasks.Fetch.{after_commit}

-- The inner loop, over the points of one ticker.
unfoldable pub save_points : Engine → String → List (ℤ × ℤ) → Table → Result Table
save_points e ticker [] visible = ok visible
save_points e ticker ((price, timestamp) ∷ points) visible = do
  saved ← save_price e ticker price timestamp visible
  save_points e ticker points saved.1

-- One round of the outer loop: the `try` around the client's call, with its `continue` and its
-- `raise`, and the inner loop.
unfoldable pub backfill_ticker : Engine → String → Result (List (ℤ × ℤ)) → Table → Result Table
backfill_ticker e ticker (ok points) visible = save_points e ticker points visible
backfill_ticker e ticker (err exc) visible =
    if is_collection_permanent exc
    then ok visible
    else if is_collection_transient exc
    then err (batch_transient (backfill_failed ticker))
    else err exc

-- `except ValueError`; any other exception passes.
unfoldable pub handle_backfill : Exn → Exn
handle_backfill exc = if is_value_error exc then batch_permanent unsupported_range else exc

-- The end of the outermost `try`. Whatever was raised, nothing is committed.
abbrev pub finish : Engine → Result Table → Table → Result (Unit {0}) × Table
finish e (ok visible) stored = after_commit (e.commit visible) visible stored
finish e (err exc) stored = (err (handle_backfill exc), stored)

module _ (c : Config) (http : Http) (e : Engine) where
  -- The outer loop.
  unfoldable pub backfill_tickers : HistoryRange → List String → Table → Result Table
  backfill_tickers chart_range [] visible = ok visible
  backfill_tickers chart_range (ticker ∷ tickers) visible = do
    visible' ← backfill_ticker e ticker (get_index_chart_data c http ticker chart_range) visible
    backfill_tickers chart_range tickers visible'

  -- The `try` body up to the commit.
  unfoldable pub collect_history : List String → String → Table → Result Table
  collect_history tickers range_name stored = do
    chart_range ← range_of_value range_name
    client ← build_sync_market_data_provider c
    backfill_tickers chart_range tickers stored

  unfoldable pub backfill_price_history : List String → String → Table → Result (Unit {0}) × Table
  backfill_price_history tickers range_name stored =
      finish e (collect_history tickers range_name stored) stored
