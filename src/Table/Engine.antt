-- ===== src/Table/Engine.antt =====
-- The database behind SQLAlchemy, as the code uses it: a parameter of everything that runs a
-- statement. `execute` and `commit` may raise.
use deribit_price_collector.Prelude.{ℕ, ◌≡◌, false, List, Permᴰ, filter, All, ◌==◌}
use deribit_price_collector.Prelude.Order.{Ordered}
use deribit_price_collector.Exceptions.{
  Exn, Result, ok, err, is_collection_permanent, is_collection_transient,
}
use deribit_price_collector.Table.{Price, Table, Select, matches, page, InOrder}

pub record Engine : Type 0 where
  -- the rows of a statement, over the rows that the session sees (what it has added is flushed first)
  pub execute : Select → Table → Result (List Price)
  pub commit : Table → Result (Unit {0})
  -- the columns that the server fills when a row is inserted
  pub new_id : Table → ℕ
  pub created_at : Table → ℕ

-- An answer is a page of some arrangement, in the order asked for, of the rows that match.
pub record Answers (q : Select) (t : Table) (rows : List Price) : Type 0 where
  pub arranged : List Price
  pub perm : Permᴰ arranged (filter (matches q.conditions) t)
  pub ordered : Ordered (InOrder q.order) arranged
  pub paged : rows ≡ page q.limit q.offset arranged

-- What the code relies on: the meaning of SELECT, that a new primary key is in use nowhere, and that
-- the database library does not raise the collector's own exceptions.
pub record IsEngine (e : Engine) : Type 0 where
  pub answers :
      (q : Select) (t : Table) (rows : List Price) → e.execute q t ≡ ok rows → Answers q t rows
  pub fresh_id : (t : Table) → All (λ r. (r.id == e.new_id t) ≡ false) t
  pub foreign :
      (q : Select) (t : Table) (x : Exn)
      → e.execute q t ≡ err x
      → (is_collection_permanent x ≡ false) × (is_collection_transient x ≡ false)
