-- ===== src/Tests/Schema.antt =====
-- The migrations on a database that does what is documented, from one that holds nothing.
use deribit_price_collector.Prelude.{◌≡◌, refl, Option, none, some, []}
use deribit_price_collector.Migrations.{
  Op, create_table, drop_table, create_index, drop_index, create_unique_constraint, drop_constraint,
  price_model,
}
use deribit_price_collector.Migrations.Catalog.{Catalog, IsDdl, define, run_all}
use deribit_price_collector.Migrations.Laws.{Fresh, head}
use deribit_price_collector.Migrations.Head.{
  IsModel, upgrades, downgrades, revisions, newest_first, migrations_roundtrip,
}
use deribit_price_collector.Tests.Env.{rows}

-- A name that is created must be free, and one that is dropped must be there.
abbrev if_free {ℓ} : {A : Type ℓ} → Option A → Catalog → Option Catalog
if_free none s = some s
if_free (some a) s = none

abbrev if_there {ℓ} : {A : Type ℓ} → Option A → Catalog → Option Catalog
if_there none s = none
if_there (some a) s = some s

unfoldable run : Op → Catalog → Option Catalog
run (create_table d) s =
    if_free (s.table d.name) (record s { table = define s.table d.name (some d); rows = [] })
run (drop_table name) s =
    if_there (s.table name) (record s { table = define s.table name none; rows = [] })
run (create_index i) s =
    if_free (s.index i.name) (record s { index = define s.index i.name (some i) })
run (drop_index name table_name) s =
    if_there (s.index name) (record s { index = define s.index name none })
run (create_unique_constraint u) s =
    if_free (s.constraint u.name) (record s { constraint = define s.constraint u.name (some u) })
run (drop_constraint name table_name) s =
    if_there (s.constraint name) (record s { constraint = define s.constraint name none })

run-IsDdl : IsDdl run
unfolding run
run-IsDdl = record {
  creates_table = λ d s h k. rw (h, k);
  drops_table = λ d s h k. rw h;
  creates_index = λ i d s h k. rw h;
  drops_index = λ i s h. rw h;
  creates_unique = λ u d s p q h k v. rw h;
  drops_unique = λ u s h. rw h;
}

abbrev empty : Catalog
empty = record { table = λ n. none; index = λ n. none; constraint = λ n. none; rows = [] }

empty-Fresh : Fresh empty
empty-Fresh = record {
  no_table = refl;
  no_ticker_index = refl;
  no_timestamp_index = refl;
  no_pair_index = refl;
  no_constraint = refl;
  no_index = λ name i h k. cc;
  no_unique = λ name u h k. cc;
  no_rows = refl;
}

migrations_roundtrip_example :
    (run_all run (upgrades revisions) empty ≡ some (head empty []))
    × IsModel price_model (head empty rows)
    × (run_all run (downgrades newest_first) (head empty rows) ≡ some empty)
migrations_roundtrip_example = migrations_roundtrip run empty rows run-IsDdl empty-Fresh
