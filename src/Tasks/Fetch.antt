-- ===== src/Tasks/Fetch.antt =====
-- collector/tasks.py: `fetch_price_batch`. A task that writes takes the committed rows and returns
-- its result with the rows that are committed when it ends; its session is closed in any case.
pub mod Loop
pub mod Laws
use deribit_price_collector.Prelude.{
  ℕ, ◌+◌, String, Bool, true, false, List, [], ◌∷◌, ◌++◌, map, ltb, if◌then◌else◌,
}
use deribit_price_collector.Exceptions.{
  Exn, Result, ok, err, batch_permanent, batch_transient, commit_failed, unexpected, tickers_failed,
  is_collection_permanent, is_collection_transient, is_batch_permanent, is_batch_transient, ◌>>=◌,
}
use deribit_price_collector.Config.{Config}
use deribit_price_collector.Providers.{build_sync_market_data_provider}
use deribit_price_collector.Table.{Price, Table}
use deribit_price_collector.Table.Engine.{Engine}
use deribit_price_collector.Repository.{save_price}
use deribit_price_collector.Client.{Http, get_index_price_time}

-- The local variables of the loop, with the rows that the session sees.
pub record Batch : Type 0 where
  pub visible : Table
  pub success_count : ℕ
  pub permanent_failures : List (String × Exn)
  pub transient_failures : List (String × Exn)

-- The `except` clauses around one ticker, and what follows when nothing was raised.
unfoldable pub note_outcome : String → Batch → Result (Price × Table) → Result Batch
note_outcome ticker b (ok (obj, visible)) =
    ok (record b { visible = visible; success_count = b.success_count + 1 })
note_outcome ticker b (err exc) =
    if is_collection_permanent exc
    then ok (record b { permanent_failures = b.permanent_failures ++ (ticker, exc) ∷ [] })
    else if is_collection_transient exc
    then ok (record b { transient_failures = b.transient_failures ++ (ticker, exc) ∷ [] })
    else err exc

abbrev pub failed_tickers : Batch → List String
failed_tickers b = map (λ (f : String × Exn). f.0) (b.permanent_failures ++ b.transient_failures)

abbrev pub is_empty {ℓ} : {A : Type ℓ} → List A → Bool
is_empty [] = true
is_empty (x ∷ xs) = false

-- session.commit() under its `try`: on any exception the session is rolled back.
abbrev pub after_commit : Result (Unit {0}) → Table → Table → Result (Unit {0}) × Table
after_commit (ok _) visible stored = (ok tt, visible)
after_commit (err exc) visible stored = (err (batch_transient commit_failed), stored)

-- What follows the loop: the commit, or the rollback and the error of a batch that stored nothing.
unfoldable pub conclude : Engine → Batch → Table → Result (Unit {0}) × Table
conclude e b stored =
    if ltb 0 b.success_count
    then after_commit (e.commit b.visible) b.visible stored
    else if is_empty b.transient_failures
    then (err (batch_permanent (tickers_failed (failed_tickers b))), stored)
    else (err (batch_transient (tickers_failed (failed_tickers b))), stored)

-- The outermost `except` clauses: batch errors pass, anything else becomes a transient one.
unfoldable pub handle_batch : Exn → Exn
handle_batch exc =
    if is_batch_transient exc
    then exc
    else if is_batch_permanent exc
    then exc
    else batch_transient unexpected

-- The locals before the loop.
abbrev pub empty_batch : Table → Batch
empty_batch stored = record {
  visible = stored;
  success_count = 0;
  permanent_failures = [];
  transient_failures = [];
}

-- The end of the outermost `try`: an exception rolls the session back.
abbrev pub finish : Engine → Result Batch → Table → Result (Unit {0}) × Table
finish e (ok b) stored = conclude e b stored
finish e (err exc) stored = (err (handle_batch exc), stored)

module _ (c : Config) (http : Http) (e : Engine) where
  -- The `try` body of one ticker.
  unfoldable pub fetch_ticker : String → Table → Result (Price × Table)
  fetch_ticker ticker visible = do
    quote ← get_index_price_time c http ticker
    save_price e ticker quote.0 quote.1 visible

  -- The loop over the tickers.
  unfoldable pub fetch_tickers : List String → Batch → Result Batch
  fetch_tickers [] b = ok b
  fetch_tickers (ticker ∷ tickers) b = do
    b' ← note_outcome ticker b (fetch_ticker ticker b.visible)
    fetch_tickers tickers b'

  -- The `try` body up to the end of the loop.
  unfoldable pub collect : List String → Table → Result Batch
  collect tickers stored = do
    client ← build_sync_market_data_provider c
    fetch_tickers tickers (empty_batch stored)

  unfoldable pub fetch_price_batch : List String → Table → Result (Unit {0}) × Table
  fetch_price_batch tickers stored = finish e (collect tickers stored) stored
