-- ===== src/Lib.antt =====
-- deribit-price-collector: index prices of crypto currencies are collected from Deribit by Celery
-- tasks, stored in PostgreSQL, and served by a FastAPI application. This library models the
-- collector, the storage beneath it and the application.
--
-- The parts and how they interact. `dispatch_price_batches` cuts the configured tickers into batches
-- and queues one `fetch_price_batch` for each; that task asks the client for the price of each ticker
-- and saves it. `reconcile_recent_prices` looks for stale or interrupted histories and queues a
-- `backfill_price_history`, which asks the client for charts and saves their points. All three read
-- and write through the repository, which turns its methods into statements on the table `prices`. The
-- routes check a query, ask `PriceService`, which reads through the same repository and computes the
-- candles and the summary, and end with an answer or an exception; the handlers make a response of
-- it, and the middleware counts the request. Celery's beat queues the first and the third of these tasks
-- again and again; its workers run what is on the queue, and queue a task again that failed in a way that may
-- pass. Alembic's revisions create the table that all of this stands on.
--
-- The files:
--   Exceptions    collector/exceptions.py: the exception classes as one data type, `Exn`, with
--                 `isinstance` as tests; `Result` is the outcome of code that may raise
--   Config        app/core/config.py: the settings and the URLs made of them
--   Providers     collector/providers.py, app/core/instruments.py: the registry of providers, and the
--                 history ranges with their text
--   Table         app/models.py and the statements that SQLAlchemy builds: a row, a condition, a
--                 `Select`; Table/Engine the database as a parameter; Table/Unique the constraints
--                 of the table and the table as a map from keys to prices
--   Repository    app/repositories.py: the reads by ticker, by range and of the newest row, and
--                 `save_price`, one function for each method; Repository/Aggregates the counts and
--                 the latest prices, Repository/Paging the pages against one sorted list
--   Client        collector/client.py: `get_index_price_time` and `get_index_chart_data`, from the
--                 test of the ticker to the parsed answer; Client/Value the JSON values they read
--   Tasks         collector/tasks.py: Dispatch (`chunked`, `dispatch_price_batches`), Gaps
--                 (`resolve_reconciliation_range`, `has_missing_intervals`), Fetch
--                 (`fetch_price_batch`), Backfill (`backfill_price_history`), Reconcile
--                 (`reconcile_recent_prices`)
--   Schemas       app/schemas.py: the queries with their checks
--   Decimal       the arithmetic of Python's `decimal.Decimal` that the service uses
--   Services      app/services.py: the three plain reads; Services/Candles `get_candles` with its
--                 buckets; Services/Summary `get_price_summary`
--   Metrics       app/core/metrics.py: `RuntimeMetrics`, with the middleware of app/main.py that feeds
--                 it; Metrics/Traces the requests of a server in any interleaving;
--                 Metrics/Snapshot and Metrics/Prometheus what the two routes send
--   Api           app/api/endpoints.py: Prices the routes under /prices, Registry those on health,
--                 instruments and providers, Metrics those under /metrics, Replies what the routes raise
--                 and answer
--   App           app/main.py: a request from the middleware to the response; App/Errors the handlers
--                 and app/core/error_responses.py; App/Routes every route from its path to
--                 the response; App/Lifespan the start and stop, and the session of app/core/db.py;
--                 App/Database its engines, App/Context what is logged for a request
--   Cli           collector/backfill.py, collector/reconcile.py: the command line tools
--   System        collector/tasks.py as Celery runs it: the beat schedule, the options of the
--                 decorators, the queue and the rows; `Step` is one event and `Reach` any run of them.
--                 System/Given and System/Reached say where prices come from, System/Queue which
--                 messages there are, System/Draining and System/Recovery what retries come to,
--                 System/Healing what a reconciliation and the backfill that it queues leave
--   Migrations    alembic/versions: the revisions as lists of operations; Migrations/Catalog what the
--                 database does with them, Migrations/Head the newest schema and app/models.py,
--                 Migrations/Env alembic/env.py
--   Logging       app/core/logging_config.py: `setup_logger` and `JsonFormatter`
--   Prelude       integers, text, order on lists and what the parts share
--   Tests         a database in memory, a stub server, and the theorems at concrete inputs
--
-- Conventions. A session is explicit state: the list of rows that it sees. A task takes the committed
-- rows and returns its result, `ok` or an exception, with the rows that are committed when it ends. A
-- price is a whole number of 10⁻⁸, the scale of its column. Times are unbounded integers, as in
-- Python. The clock is an argument. Settings are a record that the functions take. Middleware is split
-- at its `await`, where other requests run; durations are a parameter, a type with its addition. The
-- path of an exception through FastAPI (validation errors and `HTTPException` are handled inside the
-- middleware, all others outside of it) is App.inner and App.outer. A difference of two prices has at
-- most 21 digits, which `Decimal` keeps, so it stays in units of the column.
--
-- Parameters. `Http` is httpx and the reading of a decimal from text: any function from requests to
-- answers, which may raise. `Engine` is the database behind SQLAlchemy, and `IsEngine` is what the
-- code relies on: an answer to a statement is a page of some arrangement, in the order asked for, of
-- exactly the rows that match; a new id is unused; the database raises no exception of the
-- collector. `Reports` is what it answers to the statements that count, group and join, and `IsReports`
-- their meaning. `IsDdl` is what is documented of the operations of a migration. Tests/Memory,
-- Tests/Reports and Tests/Schema give all three. `Responds` says that every query is answered,
-- and stands only in the theorems that say so.
--
-- Bounds and fuel. `chunks` runs on the number of elements as fuel; each round of the loop takes one
-- element at least, so this is enough. `show` and `digit_count` run on the number itself as fuel, which
-- has no more digits than that. All other loops are structural.
--
-- Not modelled: the messages that each part logs, but for that of an unhandled exception; two tasks that
-- write at the same time (each has one transaction, and isolation is the database's); reading a query
-- from the text of a request and writing a response as JSON, which are pydantic's and FastAPI's; the
-- reading of command lines by argparse and of settings from the environment; what is made with
-- constants only: the FastAPI application and the loggers of the modules; a `delay` that raises because
-- the broker is down, which would end a dispatch or a reconciliation half way; and a `usIn` that is NaN
-- or infinite, since the time in whole seconds of a float is given as an integer.
pub mod Prelude
pub mod Exceptions
pub mod Config
pub mod Providers
pub mod Table
pub mod Decimal
pub mod Repository
pub mod Client
pub mod Tasks
pub mod Schemas
pub mod Services
pub mod Metrics
pub mod Api
pub mod App
pub mod Cli
pub mod System
pub mod Migrations
pub mod Logging
pub mod Tests
