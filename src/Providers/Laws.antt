-- ===== src/Providers/Laws.antt =====
-- The range names of collector/providers.py, and the two ways in which the program asks whether
-- a ticker is supported.
use deribit_price_collector.Prelude.{
  String, ◌≡◌, refl, ap, inl, inr, Bool-cases, List, [], ◌∷◌, arith, map, any, str_eq, str_eq_iff,
}
use deribit_price_collector.Exceptions.{ok, ◌>>=◌}
use deribit_price_collector.Config
use deribit_price_collector.Config.{Config, in_supported_tickers_set}
use deribit_price_collector.Providers.{
  HistoryRange, MarketDataProviderName, deribit, ProviderInstrument, range_value, range_of_value,
  in_supported_ticker_set, build_sync_market_data_provider,
}
use deribit_price_collector.Providers.HistoryRange.{
  one_hour, one_day, two_days, one_month, one_year, all,
}

pub range_of_value-range_value : (r : HistoryRange) → range_of_value (range_value r) ≡ ok r
unfolding range_of_value range_value
range_of_value-range_value one_hour = refl
range_of_value-range_value one_day = refl
range_of_value-range_value two_days = refl
range_of_value-range_value one_month = refl
range_of_value-range_value one_year = refl
range_of_value-range_value all = refl

pub range_value-range_of_value :
    (s : String) (r : HistoryRange) → range_of_value s ≡ ok r → range_value r ≡ s
unfolding range_of_value range_value
range_value-range_of_value s r h = ground (
  arith,
  str_eq_iff s "1h",
  str_eq_iff s "1d",
  str_eq_iff s "2d",
  str_eq_iff s "1m",
  str_eq_iff s "1y",
  str_eq_iff s "all",
)

any-map :
    (p : MarketDataProviderName) (value : String) (ts : List String)
    → any
        (λ t. str_eq t value)
        (map
          (λ (i : ProviderInstrument). i.ticker)
          (map (λ t. record { ticker = t; provider = p }) ts))
      ≡ any (λ t. str_eq t value) ts
any-map p value [] = refl
any-map p value (t ∷ ts) = rw (any-map p value ts)

-- The API's set of tickers is the collector's, if the configured provider is known; if not, asking
-- for it raises `ValueError`, as building the collector's client does.
pub in_supported_ticker_set_lem :
    (c : Config) (value : String)
    → in_supported_ticker_set c value
      ≡ (do client ← build_sync_market_data_provider c; ok (in_supported_tickers_set c value))
unfolding in_supported_ticker_set in_supported_tickers_set Config.supported_tickers
    build_sync_market_data_provider
in_supported_ticker_set_lem c value = elim (Bool-cases (str_eq c.market_data_provider "deribit")) [
  | inl e ↦ rw e (ap ok (any-map deribit value c.tickers))
  | inr e ↦ rw e
]
