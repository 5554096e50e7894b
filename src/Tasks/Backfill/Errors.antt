-- ===== src/Tasks/Backfill/Errors.antt =====
-- Which errors `backfill_price_history` reports as an unsupported range.
use deribit_price_collector.Prelude.{String, ◌≡◌, ◌≢◌, inl, inr, true, List, [], ◌∷◌, arith}
use deribit_price_collector.Exceptions.{
  Exn, ok, err, value_error, batch_permanent, unsupported_range, Result-cases,
}
use deribit_price_collector.Config.{Config, in_supported_tickers_set}
use deribit_price_collector.Providers.{
  HistoryRange, deribit, range_value, range_of_value, build_sync_market_data_provider,
}
use deribit_price_collector.Providers.Laws.{range_of_value-range_value, range_value-range_of_value}
use deribit_price_collector.Table.{Table}
use deribit_price_collector.Table.Engine.{Engine}
use deribit_price_collector.Client.{Http, fetch, get_index_chart_data}
use deribit_price_collector.Tasks.Backfill.{
  backfill_ticker, backfill_tickers, handle_backfill, collect_history, backfill_price_history,
}

-- A range that is none of the six makes the backfill fail for good, whatever the rest is.
pub backfill_unknown_range :
    (c : Config) (http : Http) (e : Engine) (tickers : List String) (range_name : String)
    (stored : Table)
    → ((r : HistoryRange) → range_value r ≢ range_name)
    → backfill_price_history c http e tickers range_name stored
      ≡ (err (batch_permanent unsupported_range), stored)
unfolding backfill_price_history collect_history
backfill_unknown_range c http e tickers range_name stored h =
    elim (Result-cases (range_of_value range_name)) [
      | inl (r, p) ↦ absurd (h r (range_value-range_of_value range_name r p))
      | inr (x, p) ↦ unfold handle_backfill in rw (p, only_value_error range_name x p)
    ]
  where
    only_value_error : (s : String) (x : Exn) → range_of_value s ≡ err x → x ≡ value_error
    only_value_error s x p = unfold range_of_value in ground arith

-- The request for the chart of a ticker.
abbrev chart_params : String → HistoryRange → List (String × String)
chart_params ticker r = ("index_name", ticker) ∷ ("range", range_value r) ∷ []

-- An answer that is no JSON (`ValueError`) to the request for the first ticker is reported as an
-- unsupported range, and so as permanent, though the range is supported; nothing is stored.
pub backfill_bad_json :
    (c : Config) (http : Http) (e : Engine) (r : HistoryRange) (ticker : String)
    (tickers : List String) (stored : Table)
    → build_sync_market_data_provider c ≡ ok deribit
    → in_supported_tickers_set c ticker ≡ true
    → fetch c http "/public/get_index_chart_data" (chart_params ticker r) ≡ err value_error
    → backfill_price_history c http e (ticker ∷ tickers) (range_value r) stored
      ≡ (err (batch_permanent unsupported_range), stored)
unfolding backfill_price_history collect_history backfill_tickers backfill_ticker
    get_index_chart_data handle_backfill
backfill_bad_json c http e r ticker tickers stored known member bad =
    rw (range_of_value-range_value r, known, member, bad)
