-- ===== src/Repository.antt =====
-- app/repositories.py: the statements of both repositories. A method takes the engine and the rows
-- that its session sees; a method that writes returns the rows that the session sees afterwards.
pub mod Save
pub mod Queries
pub mod Latest
pub mod Pages
pub mod Paging
pub mod Aggregates
use deribit_price_collector.Prelude.{ℕ, String, Option, none, some, List, [], ◌∷◌, ◌++◌, map, head?}
use deribit_price_collector.Prelude.Int.{ℤ}
use deribit_price_collector.Exceptions.{Result, ok, err, other, ◌>>=◌}
use deribit_price_collector.Table.{
  Price, Table, SortOrder, asc, desc, Condition, ticker_eq, timestamp_eq, timestamp_ge,
  timestamp_le, Select,
}
use deribit_price_collector.Table.Engine.{Engine}
use deribit_price_collector.Table.Unique.{set_price}

-- Result.scalar_one_or_none(): `MultipleResultsFound` if there are two rows or more.
abbrev pub scalar_one_or_none {ℓ} : {A : Type ℓ} → List A → Result (Option A)
scalar_one_or_none [] = ok none
scalar_one_or_none (x ∷ []) = ok (some x)
scalar_one_or_none (x ∷ y ∷ rest) = err other

module _ (e : Engine) where
  -- AsyncPriceRepository.get_all_by_ticker
  unfoldable pub get_all_by_ticker : String → ℕ → ℕ → SortOrder → Table → Result (List Price)
  get_all_by_ticker ticker limit offset sorting t =
      e.execute
        (record {
          conditions = ticker_eq ticker ∷ [];
          order = some sorting;
          limit = some limit;
          offset = offset;
        })
        t

  abbrev pub latest_stmt : String → Select
  latest_stmt ticker = record {
    conditions = ticker_eq ticker ∷ [];
    order = some desc;
    limit = some 1;
    offset = 0;
  }

  -- AsyncPriceRepository.get_latest_by_ticker
  unfoldable pub get_latest_by_ticker : String → Table → Result (Option Price)
  get_latest_by_ticker ticker t = do rows ← e.execute (latest_stmt ticker) t; ok (head? rows)

  -- stmt.where(Price.timestamp >= timestamp_from), if it is not None
  abbrev pub from_condition : Option ℤ → List Condition
  from_condition none = []
  from_condition (some n) = timestamp_ge n ∷ []

  abbrev pub to_condition : Option ℤ → List Condition
  to_condition none = []
  to_condition (some n) = timestamp_le n ∷ []

  -- AsyncPriceRepository.get_by_ticker_and_date_range
  unfoldable pub get_by_ticker_and_date_range :
      String → Option ℤ → Option ℤ → ℕ → ℕ → SortOrder → Table → Result (List Price)
  get_by_ticker_and_date_range ticker timestamp_from timestamp_to limit offset sorting t =
      e.execute
        (record {
          conditions =
              ticker_eq ticker ∷ (from_condition timestamp_from ++ to_condition timestamp_to);
          order = some sorting;
          limit = some limit;
          offset = offset;
        })
        t

  -- The statement of `save_price`: the row of a ticker and a timestamp.
  abbrev pub key_stmt : String → ℤ → Select
  key_stmt ticker timestamp = record {
    conditions = ticker_eq ticker ∷ timestamp_eq timestamp ∷ [];
    order = none;
    limit = none;
    offset = 0;
  }

  -- Price(ticker=ticker, price=price, timestamp=timestamp), with what the server fills in
  abbrev pub new_row : String → ℤ → ℤ → Table → Price
  new_row ticker price timestamp t = record {
    id = e.new_id t;
    ticker = ticker;
    price = price;
    timestamp = timestamp;
    created_at = e.created_at t;
  }

  abbrev pub save_found : Option Price → String → ℤ → ℤ → Table → Price × Table
  save_found none ticker price timestamp t =
      (new_row ticker price timestamp t, t ++ new_row ticker price timestamp t ∷ [])
  save_found (some obj) ticker price timestamp t =
      (record obj { price = price }, set_price obj.id price t)

  -- SyncPriceRepository.save_price
  unfoldable pub save_price : String → ℤ → ℤ → Table → Result (Price × Table)
  save_price ticker price timestamp t = do
    rows ← e.execute (key_stmt ticker timestamp) t
    obj ← scalar_one_or_none rows
    ok (save_found obj ticker price timestamp t)

  -- SyncPriceRepository.get_latest_timestamp
  unfoldable pub get_latest_timestamp : String → Table → Result (Option ℤ)
  get_latest_timestamp ticker t = do
    rows ← e.execute (latest_stmt ticker) t
    scalar_one_or_none (map (λ (r : Price). r.timestamp) rows)

  -- SyncPriceRepository.get_timestamps_in_range
  unfoldable pub get_timestamps_in_range : String → ℤ → ℤ → Table → Result (List ℤ)
  get_timestamps_in_range ticker timestamp_from timestamp_to t = do
    rows ←
        e.execute
          (record {
            conditions =
                ticker_eq ticker ∷ timestamp_ge timestamp_from ∷ timestamp_le timestamp_to ∷ [];
            order = some asc;
            limit = none;
            offset = 0;
          })
          t
    ok (map (λ (r : Price). r.timestamp) rows)
