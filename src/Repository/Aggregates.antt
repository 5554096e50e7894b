-- ===== src/Repository/Aggregates.antt =====
-- The three aggregate reads of `AsyncPriceRepository` in app/repositories.py. Their statements count,
-- group and join, so what the database answers to them is a parameter of its own, with the meaning of
-- COUNT, GROUP BY, MAX and JOIN as its law.
pub mod Laws
use deribit_price_collector.Prelude.{
  ℕ, String, ◌≡◌, ◌↔◌, true, Option, none, some, List, map, filter, length, str_eq,
}
use deribit_price_collector.Prelude.Int.{◌≤ℤ◌}
use deribit_price_collector.Prelude.Order.{Member}
use deribit_price_collector.Prelude.Dict.{Dict, dict_of}
use deribit_price_collector.Exceptions.{Result, ok, err, ◌>>=◌}
use deribit_price_collector.Table.{Price, Table}

pub record Reports : Type 0 where
  -- select(func.count(Price.id)), read by `scalar`
  pub count : Table → Result (Option ℕ)
  -- select(Price.ticker, func.count(Price.id)).group_by(Price.ticker)
  pub counts : Table → Result (List (String × ℕ))
  -- the rows joined with the greatest timestamp of their ticker
  pub latest : Table → Result (List Price)

abbrev pub rows_of : String → Table → List Price
rows_of ticker t = filter (λ r. str_eq r.ticker ticker) t

-- No row of the same ticker is later.
abbrev pub IsNewest : Table → Price → Type 0
IsNewest t r = (q : Price) → Member q t → q.ticker ≡ r.ticker → q.timestamp ≤ℤ r.timestamp

pub record IsReports (d : Reports) : Type 0 where
  pub counted : (t : Table) (n : Option ℕ) → d.count t ≡ ok n → n ≡ some (length t)
  -- a group for each ticker that occurs, with the number of its rows
  pub grouped :
      (t : Table) (groups : List (String × ℕ)) (ticker : String) (n : ℕ)
      → d.counts t ≡ ok groups
      → Member (ticker, n) groups
        ↔ ((n ≡ length (rows_of ticker t)) × ((r : Price) × Member r t × (r.ticker ≡ ticker)))
  pub joined :
      (t : Table) (rows : List Price) (r : Price)
      → d.latest t ≡ ok rows
      → Member r rows ↔ (Member r t × IsNewest t r)

-- int(result or 0)
abbrev pub or_zero : Option ℕ → ℕ
or_zero none = 0
or_zero (some n) = n

module _ (d : Reports) where
  unfoldable pub get_total_prices_count : Table → Result ℕ
  get_total_prices_count t = do result ← d.count t; ok (or_zero result)

  unfoldable pub get_counts_by_ticker : Table → Result (Dict ℕ)
  get_counts_by_ticker t = do result ← d.counts t; ok (dict_of result)

  unfoldable pub get_latest_prices_by_ticker : Table → Result (Dict Price)
  get_latest_prices_by_ticker t = do
    latest_prices ← d.latest t
    ok (dict_of (map (λ (price : Price). (price.ticker, price)) latest_prices))
