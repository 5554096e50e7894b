-- ===== src/Cli.antt =====
-- collector/backfill.py and collector/reconcile.py: the two command line tools. They call the tasks
-- directly. `argparse` reads the arguments: what it hands on is the argument of `main`, and a range that is
-- no choice of its ends the tool with a usage error.
pub mod Laws
use deribit_price_collector.Prelude.{
  String, Bool, ◌≡◌, refl, Option, none, some, List, [], ◌∷◌, any, map, str_eq, if◌then◌else◌,
}
use deribit_price_collector.Prelude.Int.{ℤ}
use deribit_price_collector.Exceptions.{Result}
use deribit_price_collector.Config.{Config}
use deribit_price_collector.Config
use deribit_price_collector.Providers.{
  range_value, one_hour, one_day, two_days, one_month, one_year, all,
}
use deribit_price_collector.Table.{Table}
use deribit_price_collector.Table.Engine.{Engine}
use deribit_price_collector.Client.{Http}
use deribit_price_collector.Tasks.Dispatch.{Job}
use deribit_price_collector.Tasks.Backfill.{backfill_price_history}
use deribit_price_collector.Tasks.Reconcile.{reconcile_recent_prices}

-- args.tickers or list(config.supported_tickers)
unfoldable pub tickers_or_all : Config → Option (List String) → List String
unfolding Config.supported_tickers
tickers_or_all c none = Config.supported_tickers c
tickers_or_all c (some []) = Config.supported_tickers c
tickers_or_all c (some (t ∷ ts)) = t ∷ ts

-- [item.value for item in HistoryRange]
unfoldable pub range_choices : List String
unfolding range_value
range_choices = map range_value (one_hour ∷ one_day ∷ two_days ∷ one_month ∷ one_year ∷ all ∷ [])

-- `main` of collector/backfill.py, of `--ticker` and `--range`: `none` is the usage error.
unfoldable pub backfill_main :
    Config
    → Http
    → Engine
    → Option (List String)
    → String
    → Table
    → Option (Result (Unit {0}) × Table)
unfolding tickers_or_all range_choices
backfill_main c http e tickers range_name stored =
    if any (λ choice. str_eq range_name choice) range_choices
    then some (backfill_price_history c http e (tickers_or_all c tickers) range_name stored)
    else none

-- `main` of collector/reconcile.py, of `--ticker` and `--lookback-seconds`.
unfoldable pub reconcile_main :
    Config → Engine → ℤ → Option (List String) → Option ℤ → Table → Result (List Job)
unfolding tickers_or_all
reconcile_main c e now_timestamp tickers none t =
    reconcile_recent_prices c e now_timestamp (some (tickers_or_all c tickers))
      (some c.reconciliation_lookback_sec) t
reconcile_main c e now_timestamp tickers (some lookback_seconds) t =
    reconcile_recent_prices c e now_timestamp (some (tickers_or_all c tickers))
      (some lookback_seconds) t
