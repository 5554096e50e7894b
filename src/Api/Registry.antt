-- ===== src/Api/Registry.antt =====
-- The routes of app/api/endpoints.py on the health of the service, on instruments and on providers.
use deribit_price_collector.Prelude.{String, Bool, List, map}
use deribit_price_collector.Exceptions.{Result}
use deribit_price_collector.Config
use deribit_price_collector.Config.{Config}
use deribit_price_collector.Providers.{
  MarketDataProviderName, ProviderInstrument, ProviderMetadata, list_supported_instruments,
  list_provider_metadata, get_active_provider_metadata,
}
use deribit_price_collector.Api.Replies.{Reply, answer, call, ◌>>=◌}

-- app/schemas.py: `InstrumentResponse` and `ProviderResponse`.
pub record InstrumentResponse : Type 0 where
  pub ticker : String
  pub provider : MarketDataProviderName

pub record ProviderResponse : Type 0 where
  pub name : MarketDataProviderName
  pub display_name : String
  pub base_url : String
  pub supported_tickers : List String
  pub supports_backfill : Bool

-- The value under "status".
unfoldable pub healthcheck : Reply String
healthcheck = answer "ok"

-- `ping_db`, which runs a statement, is a parameter.
unfoldable pub readiness_check : Result (Unit {0}) → Reply String
readiness_check ping = do done ← call ping; answer "ready"

unfoldable pub get_supported_instruments : Config → Reply (List String)
unfolding Config.supported_tickers
get_supported_instruments c = answer (Config.supported_tickers c)

unfoldable pub get_supported_instrument_details : Config → Reply (List InstrumentResponse)
get_supported_instrument_details c = do
  items ← call (list_supported_instruments c)
  answer (
      map (λ (item : ProviderInstrument). record { ticker = item.ticker; provider = item.provider })
        items)

abbrev pub provider_response : ProviderMetadata → ProviderResponse
provider_response item = record {
  name = item.name;
  display_name = item.display_name;
  base_url = item.base_url;
  supported_tickers = item.supported_tickers;
  supports_backfill = item.supports_backfill;
}

unfoldable pub get_supported_providers : Config → Reply (List ProviderResponse)
get_supported_providers c = answer (map provider_response (list_provider_metadata c))

unfoldable pub get_active_provider : Config → Reply ProviderResponse
get_active_provider c = do
  item ← call (get_active_provider_metadata c)
  answer (provider_response item)
