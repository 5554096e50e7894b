-- ===== src/Migrations/Env.antt =====
-- alembic/env.py: how the migrations are run, with the calls to the libraries in their order.
use deribit_price_collector.Prelude.{
  String, ◌≡◌, refl, inl, inr, Bool, true, false, List, [], ◌∷◌, ◌++◌,
}
use deribit_price_collector.Prelude.Order.{Member}
use deribit_price_collector.Exceptions.{Result, ok, err}
use deribit_price_collector.Config.{Config, database_url}

-- The calls of env.py, and the ends of its `with` blocks: a transaction is committed or rolled back, and
-- a connection closed.
pub data Call : Type 0 where
  set_main_option configure_offline : String → Call
  async_engine_from_config connect configure_online begin_transaction run_migrations : Call
  commit rollback close dispose : Call

-- The calls that were made, and how the run ends.
abbrev pub Run : Type 0
Run = List Call × Result (Unit {0})

-- with context.begin_transaction(): context.run_migrations()
unfoldable pub in_transaction : Result (Unit {0}) → Run
in_transaction (ok u) = (begin_transaction ∷ run_migrations ∷ commit ∷ [], ok u)
in_transaction (err exc) = (begin_transaction ∷ run_migrations ∷ rollback ∷ [], err exc)

abbrev pub after : List Call → Run → Run
after calls (more, result) = (calls ++ more, result)

unfoldable pub run_sync_migrations : Result (Unit {0}) → Run
run_sync_migrations migrated = after (configure_online ∷ []) (in_transaction migrated)

-- async with connectable.connect(), and the disposal after it, which an exception skips.
unfoldable pub with_connection : Result (Unit {0}) → Run → Run
with_connection disposed (calls, ok u) = (calls ++ close ∷ dispose ∷ [], disposed)
with_connection disposed (calls, err exc) = (calls ++ close ∷ [], err exc)

-- run_async_migrations, given how the connection, the migrations and the disposal end.
unfoldable pub run_async_migrations :
    Config → Result (Unit {0}) → Result (Unit {0}) → Result (Unit {0}) → Run
run_async_migrations c (ok u) migrated disposed =
    after (set_main_option (database_url c) ∷ async_engine_from_config ∷ connect ∷ [])
      (with_connection disposed (run_sync_migrations migrated))
run_async_migrations c (err exc) migrated disposed =
    (set_main_option (database_url c) ∷ async_engine_from_config ∷ connect ∷ [], err exc)

unfoldable pub run_migrations_offline : Config → Result (Unit {0}) → Run
run_migrations_offline c migrated =
    after (configure_offline (database_url c) ∷ []) (in_transaction migrated)

-- run_migrations_online, by whether alembic's attributes hold a connection.
unfoldable pub run_migrations_online :
    Config → Bool → Result (Unit {0}) → Result (Unit {0}) → Result (Unit {0}) → Run
run_migrations_online c true connected migrated disposed = run_sync_migrations migrated
run_migrations_online c false connected migrated disposed =
    run_async_migrations c connected migrated disposed

-- if context.is_offline_mode()
unfoldable pub run_env :
    Config → Bool → Bool → Result (Unit {0}) → Result (Unit {0}) → Result (Unit {0}) → Run
run_env c true given connected migrated disposed = run_migrations_offline c migrated
run_env c false given connected migrated disposed =
    run_migrations_online c given connected migrated disposed

-- A run that succeeds has committed the migrations, whatever the mode.
pub run_env_committed :
    (c : Config) (is_offline given : Bool) (connected migrated disposed : Result (Unit {0}))
    → (run_env c is_offline given connected migrated disposed).1 ≡ ok tt
    → Member commit (run_env c is_offline given connected migrated disposed).0
unfolding run_env run_migrations_online run_migrations_offline run_async_migrations with_connection
    run_sync_migrations in_transaction
run_env_committed c true given connected (ok u) disposed h = inr (inr (inr (inl refl)))
run_env_committed c true given connected (err x) disposed h = cc
run_env_committed c false true connected (ok u) disposed h = inr (inr (inr (inl refl)))
run_env_committed c false true connected (err x) disposed h = cc
run_env_committed c false false (ok v) (ok u) disposed h =
    inr (inr (inr (inr (inr (inr (inl refl))))))
run_env_committed c false false (ok v) (err x) disposed h = cc
run_env_committed c false false (err y) migrated disposed h = cc
