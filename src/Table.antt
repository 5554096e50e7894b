-- ===== src/Table.antt =====
-- app/models.py, and the statements that app/repositories.py builds. A statement is data; what the
-- database answers is a parameter, `Engine`, with SQL's documented meaning as its law.
pub mod Engine
pub mod Answers
pub mod Unique
pub mod Sorting
use deribit_price_collector.Prelude.{
  ℕ, String, ◌≡◌, Bool, true, false, Option, none, some, List, [], ◌∷◌, ◌&&◌, filter, all, take,
  drop, str_eq, ◌==◌, if◌then◌else◌,
}
use deribit_price_collector.Prelude.Int.{ℤ, ◌≤ℤ◌, leb_ℤ, eq_ℤ}

-- A row of `prices`. The price is a whole number of the column's units, 10⁻⁸ (`Numeric(20, 8)`).
-- `created_at` is the server's clock, in its own unit.
pub record Price : Type 0 where
  pub id : ℕ
  pub ticker : String
  pub price : ℤ
  pub timestamp : ℤ
  pub created_at : ℕ

abbrev pub Table : Type 0
Table = List Price

-- app/repositories.py: `SortOrder`.
pub data SortOrder : Type 0 where
  asc desc : SortOrder

-- One condition of `.where(...)`.
pub data Condition : Type 0 where
  ticker_eq : String → Condition
  timestamp_eq : ℤ → Condition
  timestamp_ge : ℤ → Condition
  timestamp_le : ℤ → Condition

-- select(Price).where(...).order_by(Price.timestamp.<order>()).limit(...).offset(...)
pub record Select : Type 0 where
  pub conditions : List Condition
  pub order : Option SortOrder
  pub limit : Option ℕ
  pub offset : ℕ

abbrev pub holds : Condition → Price → Bool
holds (ticker_eq t) r = str_eq r.ticker t
holds (timestamp_eq n) r = eq_ℤ r.timestamp n
holds (timestamp_ge n) r = leb_ℤ n r.timestamp
holds (timestamp_le n) r = leb_ℤ r.timestamp n

abbrev pub matches : List Condition → Price → Bool
matches cs r = all (λ c. holds c r) cs

abbrev pub page : Option ℕ → ℕ → List Price → List Price
page none offset rows = drop offset rows
page (some limit) offset rows = take limit (drop offset rows)

-- What an order asks of two rows, the first of which comes earlier.
abbrev pub InOrder : Option SortOrder → Price → Price → Type 0
InOrder none a b = Unit
InOrder (some asc) a b = a.timestamp ≤ℤ b.timestamp
InOrder (some desc) a b = b.timestamp ≤ℤ a.timestamp

-- The row of a ticker and a timestamp, which `uq_prices_ticker_timestamp` makes unique.
abbrev pub same_key : String → ℤ → Price → Bool
same_key ticker timestamp r = str_eq r.ticker ticker && eq_ℤ r.timestamp timestamp
