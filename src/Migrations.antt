-- ===== src/Migrations.antt =====
-- alembic/versions/8526a137a5b4_init_prices.py, bc1eb3694e77_optimize_indexes_composite_index_for_.py and
-- e8f1a2c4d6b7_add_unique_constraint_to_prices.py: the three revisions of the database's schema, and the schema that app/models.py
-- declares. A revision's `upgrade` and `downgrade` are the operations that they call, in their order.
-- What the database does with an operation is a parameter.
pub mod Catalog
pub mod Env
pub mod Laws
pub mod Head
use deribit_price_collector.Prelude.{
  ℕ, String, Bool, true, false, Option, none, some, List, [], ◌∷◌,
}

pub data ColumnType : Type 0 where
  integer string datetime : ColumnType
  numeric : ℕ → ℕ → ColumnType

-- sa.Column(name, type, autoincrement=..., server_default=sa.text(...), nullable=...)
pub record Column : Type 0 where
  pub name : String
  pub column_type : ColumnType
  pub autoincrement : Bool
  pub server_default : Option String
  pub nullable : Bool

pub record TableDef : Type 0 where
  pub name : String
  pub columns : List Column
  pub primary_key : List String

pub record IndexDef : Type 0 where
  pub name : String
  pub table_name : String
  pub columns : List String
  pub unique : Bool

pub record UniqueDef : Type 0 where
  pub name : String
  pub table_name : String
  pub columns : List String

-- The functions of alembic's `op` that the revisions call. An index and a constraint are dropped by
-- their name and their table's.
pub data Op : Type 0 where
  create_table : TableDef → Op
  drop_table : String → Op
  create_index : IndexDef → Op
  drop_index : String → String → Op
  create_unique_constraint : UniqueDef → Op
  drop_constraint : String → String → Op

pub record Revision : Type 0 where
  pub revision : String
  pub down_revision : Option String
  pub upgrade : List Op
  pub downgrade : List Op

-- A column that is not null and has no default.
abbrev column : String → ColumnType → Column
column name column_type = record {
  name = name;
  column_type = column_type;
  autoincrement = false;
  server_default = none;
  nullable = false;
}

-- op.create_index(name, "prices", columns, unique=False)
abbrev index_on : String → List String → IndexDef
index_on name columns = record {
  name = name;
  table_name = "prices";
  columns = columns;
  unique = false;
}

abbrev ticker_index : IndexDef
ticker_index = index_on "ix_prices_ticker" ("ticker" ∷ [])

abbrev timestamp_index : IndexDef
timestamp_index = index_on "ix_prices_timestamp" ("timestamp" ∷ [])

abbrev ticker_timestamp_index : IndexDef
ticker_timestamp_index = index_on "ix_prices_ticker_timestamp" ("ticker" ∷ "timestamp" ∷ [])

abbrev ticker_timestamp_unique : UniqueDef
ticker_timestamp_unique = record {
  name = "uq_prices_ticker_timestamp";
  table_name = "prices";
  columns = "ticker" ∷ "timestamp" ∷ [];
}

-- The table that the first revision creates.
unfoldable pub prices_table : TableDef
prices_table = record {
  name = "prices";
  columns =
      record (column "id" integer) { autoincrement = true }
      ∷ column "ticker" string
      ∷ column "price" (numeric 20 8)
      ∷ column "timestamp" integer
      ∷ record (column "created_at" datetime) { server_default = some "now()" }
      ∷ [];
  primary_key = "id" ∷ [];
}

-- 8526a137a5b4
unfoldable pub init_prices : Revision
unfolding prices_table
init_prices = record {
  revision = "8526a137a5b4";
  down_revision = none;
  upgrade =
      create_table prices_table ∷ create_index ticker_index ∷ create_index timestamp_index ∷ [];
  downgrade =
      drop_index "ix_prices_timestamp" "prices"
      ∷ drop_index "ix_prices_ticker" "prices"
      ∷ drop_table "prices"
      ∷ [];
}

-- bc1eb3694e77
unfoldable pub optimize_indexes : Revision
optimize_indexes = record {
  revision = "bc1eb3694e77";
  down_revision = some "8526a137a5b4";
  upgrade =
      drop_index "ix_prices_ticker" "prices"
      ∷ drop_index "ix_prices_timestamp" "prices"
      ∷ create_index ticker_timestamp_index
      ∷ [];
  downgrade =
      drop_index "ix_prices_ticker_timestamp" "prices"
      ∷ create_index timestamp_index
      ∷ create_index ticker_index
      ∷ [];
}

-- e8f1a2c4d6b7
unfoldable pub add_unique_constraint : Revision
add_unique_constraint = record {
  revision = "e8f1a2c4d6b7";
  down_revision = some "bc1eb3694e77";
  upgrade = create_unique_constraint ticker_timestamp_unique ∷ [];
  downgrade = drop_constraint "uq_prices_ticker_timestamp" "prices" ∷ [];
}

-- What app/models.py declares of the table: __tablename__ with the mapped columns, and __table_args__.
pub record Model : Type 0 where
  pub table : TableDef
  pub uniques : List UniqueDef
  pub indexes : List IndexDef

unfoldable pub price_model : Model
price_model = record {
  table = record {
    name = "prices";
    columns =
        record (column "id" integer) { autoincrement = true }
        ∷ column "ticker" string
        ∷ column "price" (numeric 20 8)
        ∷ column "timestamp" integer
        ∷ record (column "created_at" datetime) { server_default = some "now()" }
        ∷ [];
    primary_key = "id" ∷ [];
  };
  uniques =
      record {
        name = "uq_prices_ticker_timestamp";
        table_name = "prices";
        columns = "ticker" ∷ "timestamp" ∷ [];
      }
      ∷ [];
  indexes =
      record {
        name = "ix_prices_ticker_timestamp";
        table_name = "prices";
        columns = "ticker" ∷ "timestamp" ∷ [];
        unique = false;
      }
      ∷ [];
}
