-- ===== src/Tests/Collecting.antt =====
-- The tasks that write, at concrete inputs: `btc_usd` is answered, `eth_usd` is unreachable, and
-- `sol_usd` is not supported.
use deribit_price_collector.Prelude.{String, ◌≡◌, ◌≢◌, refl, ap, str_eq, false, true, List, [], ◌∷◌}
use deribit_price_collector.Prelude.Int.{floor_div}
use deribit_price_collector.Exceptions.{
  ok, err, value_error, batch_permanent, batch_transient, unsupported_range, tickers_failed,
  is_collection_permanent, is_collection_transient,
}
use deribit_price_collector.Config.{default_config, in_supported_tickers_set}
use deribit_price_collector.Providers.{
  HistoryRange, one_hour, one_day, two_days, one_month, one_year, all, range_value, deribit,
  build_sync_market_data_provider,
}
use deribit_price_collector.Table.{Table}
use deribit_price_collector.Table.Unique.{IsTable}
use deribit_price_collector.Table.Unique.Write.{price_at}
use deribit_price_collector.Client.Value.{get, floor_million, is_number, truncate}
use deribit_price_collector.Client.{
  fetch, parse_price, parse_point, parse_points, require_list, get_index_price_time,
  get_index_chart_data,
}
use deribit_price_collector.Tasks.Fetch.{
  fetch_price_batch, collect, fetch_tickers, fetch_ticker, note_outcome, conclude,
}
use deribit_price_collector.Tasks.Fetch.Loop.{quotes, failures, SameView, put_all}
use deribit_price_collector.Tasks.Fetch.Laws as FetchLaws
use deribit_price_collector.Tasks.Fetch.Laws.{
  expected_end, Responds, fetch_price_batch_lem, fetch_price_batch-Ended,
}
use deribit_price_collector.Tasks.Backfill.{backfill_price_history}
use deribit_price_collector.Tasks.Backfill.Laws as BackfillLaws
use deribit_price_collector.Tasks.Backfill.Laws.{
  IsEnd, first_transient, backfill_price_history_lem, backfill_price_history-Ended,
}
use deribit_price_collector.Tasks.Backfill.Errors.{backfill_bad_json}
use deribit_price_collector.Tests.Memory.{memory, memory-IsEngine, memory-Responds}
use deribit_price_collector.Tests.Env.{http, garbled_http, rows, rows-IsTable}

abbrev three : List String
three = "btc_usd" ∷ "eth_usd" ∷ "sol_usd" ∷ []

known : build_sync_market_data_provider default_config ≡ ok deribit
unfolding build_sync_market_data_provider
known = refl

prices-AllExpected : FetchLaws.AllExpected default_config http three
unfolding get_index_price_time fetch parse_price in_supported_tickers_set get floor_million
    floor_div
prices-AllExpected = (refl, (refl, (refl, tt)))

charts-AllExpected : BackfillLaws.AllExpected default_config http one_day three
unfolding get_index_chart_data fetch require_list parse_points parse_point is_number truncate
    in_supported_tickers_set get floor_div
charts-AllExpected = (refl, (refl, (refl, tt)))

fetch_price_batch_example :
    (visible : Table) × IsTable visible
    × SameView (price_at visible) (put_all (quotes default_config http three) (price_at rows))
    × (fetch_price_batch default_config http memory three rows
        ≡ expected_end memory
            (quotes default_config http three)
            (failures is_collection_permanent default_config http three)
            (failures is_collection_transient default_config http three)
            visible
            rows)
fetch_price_batch_example =
    fetch_price_batch_lem default_config http memory memory-IsEngine memory-Responds three rows
      rows-IsTable known prices-AllExpected

fetch_price_batch-Ended_example :
    FetchLaws.Ended
      (quotes default_config http three)
      rows
      (fetch_price_batch default_config http memory three rows)
fetch_price_batch-Ended_example =
    fetch_price_batch-Ended default_config http memory memory-IsEngine three rows rows-IsTable

-- With no quote, the failed tickers are named and nothing is stored.
no_quote :
    fetch_price_batch default_config http memory ("eth_usd" ∷ "sol_usd" ∷ []) rows
    ≡ (err (batch_transient (tickers_failed ("sol_usd" ∷ "eth_usd" ∷ []))), rows)
unfolding fetch_price_batch collect build_sync_market_data_provider fetch_tickers fetch_ticker
    note_outcome conclude get_index_price_time fetch in_supported_tickers_set
no_quote = refl

backfill_price_history_example :
    IsEnd default_config http memory memory-IsEngine memory-Responds one_day three rows
      (first_transient default_config http one_day three)
      (backfill_price_history default_config http memory three (range_value one_day) rows)
backfill_price_history_example =
    backfill_price_history_lem default_config http memory memory-IsEngine memory-Responds one_day
      three rows rows-IsTable known charts-AllExpected

backfill_price_history-Ended_example :
    BackfillLaws.Ended default_config http three "1d" rows
      (backfill_price_history default_config http memory three "1d" rows)
backfill_price_history-Ended_example =
    backfill_price_history-Ended default_config http memory memory-IsEngine three "1d" rows
      rows-IsTable

no_path : false ≢ true
no_path h = cc

no_week : (r : HistoryRange) → range_value r ≢ "1w"
unfolding range_value
no_week one_hour h = no_path (ap (λ s. str_eq s "1w") h)
no_week one_day h = no_path (ap (λ s. str_eq s "1w") h)
no_week two_days h = no_path (ap (λ s. str_eq s "1w") h)
no_week one_month h = no_path (ap (λ s. str_eq s "1w") h)
no_week one_year h = no_path (ap (λ s. str_eq s "1w") h)
no_week all h = no_path (ap (λ s. str_eq s "1w") h)

supported : in_supported_tickers_set default_config "btc_usd" ≡ true
unfolding in_supported_tickers_set
supported = refl

garbled :
    fetch default_config garbled_http "/public/get_index_chart_data"
      (("index_name", "btc_usd") ∷ ("range", range_value one_day) ∷ [])
    ≡ err value_error
unfolding fetch
garbled = refl

backfill_bad_json_example :
    backfill_price_history default_config garbled_http memory three (range_value one_day) rows
    ≡ (err (batch_permanent unsupported_range), rows)
backfill_bad_json_example =
    backfill_bad_json default_config garbled_http memory one_day "btc_usd"
      ("eth_usd" ∷ "sol_usd" ∷ []) rows known supported garbled
