-- ===== src/Providers.antt =====
-- collector/providers.py and app/core/instruments.py: the registry of market data providers and
-- the instruments that the active one supports.
pub mod Laws
use deribit_price_collector.Prelude.{
  String, Bool, List, [], ◌∷◌, map, any, str_eq, rstrip, if◌then◌else◌,
}
use deribit_price_collector.Exceptions.{Result, ok, err, value_error, ◌>>=◌}
use deribit_price_collector.Config
use deribit_price_collector.Config.{Config}

pub data MarketDataProviderName : Type 0 where
  deribit : MarketDataProviderName

-- The `.value` of the `StrEnum` member.
unfoldable pub provider_value : MarketDataProviderName → String
provider_value deribit = "deribit"

-- MarketDataProviderName(value)
unfoldable pub provider_of_value : String → Result MarketDataProviderName
provider_of_value s = if str_eq s "deribit" then ok deribit else err value_error

pub data HistoryRange : Type 0 where
  one_hour one_day two_days one_month one_year all : HistoryRange

unfoldable pub range_value : HistoryRange → String
range_value one_hour = "1h"
range_value one_day = "1d"
range_value two_days = "2d"
range_value one_month = "1m"
range_value one_year = "1y"
range_value all = "all"

-- HistoryRange(value)
unfoldable pub range_of_value : String → Result HistoryRange
range_of_value s =
    if str_eq s "1h"
    then ok one_hour
    else if str_eq s "1d"
    then ok one_day
    else if str_eq s "2d"
    then ok two_days
    else if str_eq s "1m"
    then ok one_month
    else if str_eq s "1y"
    then ok one_year
    else if str_eq s "all"
    then ok all
    else err value_error

pub record ProviderInstrument : Type 0 where
  pub ticker : String
  pub provider : MarketDataProviderName

pub record ProviderMetadata : Type 0 where
  pub name : MarketDataProviderName
  pub display_name : String
  pub base_url : String
  pub supported_tickers : List String
  pub supports_backfill : Bool

-- provider.name == active_name
abbrev pub same_provider : MarketDataProviderName → MarketDataProviderName → Bool
same_provider deribit deribit = Bool.true

-- The client that is built: there is one class for each provider.
unfoldable pub build_sync_market_data_provider : Config → Result MarketDataProviderName
build_sync_market_data_provider c =
    if str_eq c.market_data_provider "deribit" then ok deribit else err value_error

unfoldable pub list_provider_metadata : Config → List ProviderMetadata
list_provider_metadata c =
    record {
      name = deribit;
      display_name = "Deribit";
      base_url = rstrip b'/' c.deribit_api_base_url;
      supported_tickers = Config.supported_tickers c;
      supports_backfill = Bool.true;
    }
    ∷ []

-- The `for` loop, with the `raise` behind it.
unfoldable pub find_provider :
    MarketDataProviderName → List ProviderMetadata → Result ProviderMetadata
find_provider active [] = err value_error
find_provider active (p ∷ ps) =
    if same_provider p.name active then ok p else find_provider active ps

unfoldable pub get_active_provider_metadata : Config → Result ProviderMetadata
unfolding provider_of_value find_provider list_provider_metadata
get_active_provider_metadata c = do
  active_name ← provider_of_value c.market_data_provider
  find_provider active_name (list_provider_metadata c)

unfoldable pub list_supported_instruments : Config → Result (List ProviderInstrument)
unfolding get_active_provider_metadata
list_supported_instruments c = do
  active_provider ← get_active_provider_metadata c
  ok (
      map (λ t. record { ticker = t; provider = active_provider.name })
        active_provider.supported_tickers)

-- providers.supported_tickers(), and supported_ticker_set() of app/core/instruments.py
unfoldable pub supported_tickers : Config → Result (List String)
unfolding list_supported_instruments
supported_tickers c = do
  instruments ← list_supported_instruments c
  ok (map (λ i. i.ticker) instruments)

-- value in supported_ticker_set()
unfoldable pub in_supported_ticker_set : Config → String → Result Bool
unfolding supported_tickers
in_supported_ticker_set c value = do
  tickers ← supported_tickers c
  ok (any (λ t. str_eq t value) tickers)
