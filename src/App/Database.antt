-- ===== src/App/Database.antt =====
-- app/core/db.py: the two engines and their session factories, as the options that they are made with.
use Prim.Native.String.{◌++◌}
use deribit_price_collector.Prelude.{ℕ, String, ◌≡◌, refl, Bool, true, false}
use deribit_price_collector.Config.{Config, database_url, database_sync_url, database_async_url}

-- The arguments of `create_async_engine` and `create_engine`. An option that is not given is off.
pub record EngineOptions : Type 0 where
  pub url : String
  pub pool_size : ℕ
  pub max_overflow : ℕ
  pub pool_pre_ping : Bool

-- The arguments of `async_sessionmaker` and `sessionmaker`, whose default is to flush by itself.
pub record SessionOptions : Type 0 where
  pub bind : EngineOptions
  pub expire_on_commit : Bool
  pub autoflush : Bool

unfoldable pub async_engine : Config → EngineOptions
unfolding database_url
async_engine c = record {
  url = database_url c;
  pool_size = 5;
  max_overflow = 10;
  pool_pre_ping = false;
}

unfoldable pub async_session_factory : Config → SessionOptions
unfolding async_engine
async_session_factory c = record {
  bind = async_engine c;
  expire_on_commit = false;
  autoflush = false;
}

unfoldable pub sync_engine : Config → EngineOptions
unfolding database_sync_url
sync_engine c = record {
  url = database_sync_url c;
  pool_size = 5;
  max_overflow = 10;
  pool_pre_ping = true;
}

unfoldable pub sync_session_local : Config → SessionOptions
unfolding sync_engine
sync_session_local c = record { bind = sync_engine c; expire_on_commit = false; autoflush = true }

-- The application and the collector use the same database: the two addresses differ in the driver only.
pub same_database :
    (c : Config)
    → (location : String) × ((async_session_factory c).bind.url
        ≡ "postgresql+asyncpg://" ++ location)
      × ((sync_session_local c).bind.url ≡ "postgresql+psycopg://" ++ location)
unfolding async_session_factory async_engine sync_session_local sync_engine database_url
    database_sync_url database_async_url
same_database c = (_, refl, refl)
