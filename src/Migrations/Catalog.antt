-- ===== src/Migrations/Catalog.antt =====
-- What a database knows of its tables, and what it does with the operations of a migration.
use deribit_price_collector.Prelude.{
  String, ◌≡◌, Option, none, some, List, [], ◌∷◌, str_eq, if◌then◌else◌,
}
use deribit_price_collector.Table.{Table}
use deribit_price_collector.Table.Unique.{IsTable}
use deribit_price_collector.Migrations.{
  TableDef, IndexDef, UniqueDef, Op, create_table, drop_table, create_index, drop_index,
  create_unique_constraint, drop_constraint,
}

-- The tables, indexes and constraints by their names, and the rows of `prices`.
pub record Catalog : Type 0 where
  pub table : String → Option TableDef
  pub index : String → Option IndexDef
  pub constraint : String → Option UniqueDef
  pub rows : Table

-- What a name stands for, changed at one name.
abbrev pub define {ℓ} : {A : Type ℓ} → (String → Option A) → String → Option A → String → Option A
define f name x other = if str_eq name other then x else f other

-- What is documented of the database for these operations on `prices`. An operation succeeds if the name
-- that it creates is free, or the one that it drops is there; a unique constraint on ticker and
-- timestamp, if no two rows agree in them; and the table is dropped alone if no index is on it.
pub record IsDdl (run : Op → Catalog → Option Catalog) : Type 0 where
  pub creates_table :
      (d : TableDef) (s : Catalog)
      → d.name ≡ "prices"
      → s.table "prices" ≡ none
      → run (create_table d) s
        ≡ some (record s { table = define s.table "prices" (some d); rows = [] })
  pub drops_table :
      (d : TableDef) (s : Catalog)
      → s.table "prices" ≡ some d
      → ((name : String) (i : IndexDef) → s.index name ≡ some i → i.table_name ≡ "prices" → ⊥)
      → run (drop_table "prices") s
        ≡ some (record s { table = define s.table "prices" none; rows = [] })
  pub creates_index :
      (i : IndexDef) (d : TableDef) (s : Catalog)
      → s.index i.name ≡ none
      → s.table i.table_name ≡ some d
      → run (create_index i) s ≡ some (record s { index = define s.index i.name (some i) })
  pub drops_index :
      (i : IndexDef) (s : Catalog)
      → s.index i.name ≡ some i
      → run (drop_index i.name i.table_name) s
        ≡ some (record s { index = define s.index i.name none })
  pub creates_unique :
      (u : UniqueDef) (d : TableDef) (s : Catalog)
      → u.columns ≡ "ticker" ∷ "timestamp" ∷ []
      → u.table_name ≡ "prices"
      → s.constraint u.name ≡ none
      → s.table "prices" ≡ some d
      → IsTable s.rows
      → run (create_unique_constraint u) s
        ≡ some (record s { constraint = define s.constraint u.name (some u) })
  pub drops_unique :
      (u : UniqueDef) (s : Catalog)
      → s.constraint u.name ≡ some u
      → run (drop_constraint u.name u.table_name) s
        ≡ some (record s { constraint = define s.constraint u.name none })

-- An operation that fails ends the transaction.
abbrev pub and_then : Option Catalog → (Catalog → Option Catalog) → Option Catalog
and_then none rest = none
and_then (some s) rest = rest s

-- The operations one after the other, in one transaction.
unfoldable pub run_all : (Op → Catalog → Option Catalog) → List Op → Catalog → Option Catalog
run_all run [] s = some s
run_all run (op ∷ ops) s = and_then (run op s) (run_all run ops)
