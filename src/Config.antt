-- ===== src/Config.antt =====
-- app/core/config.py: the settings.
use Prim.Native.String.{◌++◌}
use deribit_price_collector.Prelude.{String, Bool, false, List, [], ◌∷◌, any, str_eq}
use deribit_price_collector.Prelude.Int.{ℤ, pos}
use deribit_price_collector.Prelude.Show.{show_ℤ}

pub record Config : Type 0 where
  pub db_host : String
  pub db_port : ℤ
  pub db_name : String
  pub db_user : String
  pub db_password : String
  pub redis_host : String
  pub redis_port : ℤ
  pub redis_db : ℤ
  pub market_data_provider : String
  pub deribit_api_base_url : String
  pub deribit_api_timeout_sec : ℤ
  pub price_fetch_interval_sec : ℤ
  pub price_batch_size : ℤ
  pub reconciliation_interval_sec : ℤ
  pub reconciliation_lookback_sec : ℤ
  pub reconciliation_stale_multiplier : ℤ
  pub tickers : List String
  pub log_level : String
  pub log_json : Bool

-- The defaults of the fields.
abbrev pub default_config : Config
default_config = record {
  db_host = "localhost";
  db_port = pos 5432;
  db_name = "deribit_db";
  db_user = "postgres";
  db_password = "postgres";
  redis_host = "localhost";
  redis_port = pos 6379;
  redis_db = pos 0;
  market_data_provider = "deribit";
  deribit_api_base_url = "https://www.deribit.com/api/v2";
  deribit_api_timeout_sec = pos 10;
  price_fetch_interval_sec = pos 60;
  price_batch_size = pos 5;
  reconciliation_interval_sec = pos 300;
  reconciliation_lookback_sec = pos 86400;
  reconciliation_stale_multiplier = pos 2;
  tickers = "btc_usd" ∷ "eth_usd" ∷ [];
  log_level = "INFO";
  log_json = false;
}

-- What the two URLs of the database have in common after the name of the driver.
abbrev database_location : Config → String
database_location c =
    c.db_user
    ++ ":"
    ++ c.db_password
    ++ "@"
    ++ c.db_host
    ++ ":"
    ++ show_ℤ c.db_port
    ++ "/"
    ++ c.db_name

-- DATABASE_ASYNC_URL
unfoldable pub database_async_url : Config → String
unfolding show_ℤ
database_async_url c = "postgresql+asyncpg://" ++ database_location c

-- DATABASE_URL
unfoldable pub database_url : Config → String
database_url c = database_async_url c

-- DATABASE_SYNC_URL
unfoldable pub database_sync_url : Config → String
unfolding show_ℤ
database_sync_url c = "postgresql+psycopg://" ++ database_location c

-- REDIS_URL
unfoldable pub redis_url : Config → String
unfolding show_ℤ
redis_url c = "redis://" ++ c.redis_host ++ ":" ++ show_ℤ c.redis_port ++ "/" ++ show_ℤ c.redis_db

-- config.supported_tickers
unfoldable pub supported_tickers : Config → List String
supported_tickers c = c.tickers

-- ticker in config.supported_tickers_set
unfoldable pub in_supported_tickers_set : Config → String → Bool
in_supported_tickers_set c ticker = any (λ t. str_eq t ticker) c.tickers
