-- ===== src/Migrations/Head.antt =====
-- The newest revision against app/models.py, and the way there and back.
use deribit_price_collector.Prelude.{
  String, ◌≡◌, refl, sym, ap, ◌∙◌, ◌⊎◌, inl, inr, false, Bool-cases, Option, none, some, List, [],
  ◌∷◌, ◌++◌, All, str_eq,
}
use deribit_price_collector.Prelude.Order.{Member}
use deribit_price_collector.Table.{Table}
use deribit_price_collector.Migrations.{
  IndexDef, UniqueDef, Op, Revision, Model, init_prices, optimize_indexes, add_unique_constraint,
  price_model, prices_table, ticker_timestamp_index,
}
use deribit_price_collector.Migrations.Catalog.{Catalog, and_then, IsDdl, define, run_all}
use deribit_price_collector.Migrations.Laws.{
  Fresh, after_init, after_optimize, head, init-up, init-down, optimize-up, optimize-down,
  unique-up, unique-down, done,
}

-- A database with the table that a model declares, with each of its indexes and constraints, and with no
-- others on `prices`.
pub record IsModel (m : Model) (s : Catalog) : Type 0 where
  pub table : s.table m.table.name ≡ some m.table
  pub indexes : All (λ (i : IndexDef). s.index i.name ≡ some i) m.indexes
  pub uniques : All (λ (u : UniqueDef). s.constraint u.name ≡ some u) m.uniques
  pub no_other_index :
      (name : String) (i : IndexDef)
      → s.index name ≡ some i
      → i.table_name ≡ "prices"
      → Member i m.indexes
  pub no_other_unique :
      (name : String) (u : UniqueDef)
      → s.constraint name ≡ some u
      → u.table_name ≡ "prices"
      → Member u m.uniques

some_eq {ℓ} : {A : Type ℓ} {a b : A} → some a ≡ some b → b ≡ a
some_eq h = cc

defined_cases {ℓ} :
    {A : Type ℓ} (f : String → Option A) (n : String) (x : Option A) (name : String) (i : A)
    → define f n x name ≡ some i
    → (x ≡ some i) ⊎ ((str_eq n name ≡ false) × (f name ≡ some i))
defined_cases f n x name i h = elim (Bool-cases (str_eq n name)) [
  | inl e ↦ inl (rw e at h)
  | inr e ↦ inr (e, rw e at h)
]

-- Without the two indexes there are only those that were there before.
older_index :
    (g : String → Option IndexDef) (a b : Option IndexDef) (name : String) (i : IndexDef)
    → define
        (define
          (define (define g "ix_prices_ticker" a) "ix_prices_timestamp" b)
          "ix_prices_ticker"
          none)
        "ix_prices_timestamp"
        none
        name
      ≡ some i
    → g name ≡ some i
older_index g a b name i h =
    let two = define (define g "ix_prices_ticker" a) "ix_prices_timestamp" b in
    elim (defined_cases (define two "ix_prices_ticker" none) "ix_prices_timestamp" none name i h) [
      | inl e ↦ cc e
      | inr (e, k) ↦ elim (defined_cases two "ix_prices_ticker" none name i k) [
        | inl l ↦ cc l
        | inr (l, m) ↦ rw (e, l) at m
      ]
    ]

module _ (s : Catalog) (f : Fresh s) (rows : Table) where
  head_index :
      (name : String) (i : IndexDef)
      → (head s rows).index name ≡ some i
      → i.table_name ≡ "prices"
      → Member i price_model.indexes
  unfolding head after_optimize after_init price_model
  head_index name i h k =
      elim (defined_cases
        (define (define (after_init s rows).index "ix_prices_ticker" none) "ix_prices_timestamp"
          none)
        "ix_prices_ticker_timestamp" (some ticker_timestamp_index) name i h) [
          | inl e ↦ inl (some_eq e)
          | inr (e, l) ↦ absurd (f.no_index name i (older_index s.index _ _ name i l) k)
        ]

  head_unique :
      (name : String) (u : UniqueDef)
      → (head s rows).constraint name ≡ some u
      → u.table_name ≡ "prices"
      → Member u price_model.uniques
  unfolding head after_optimize after_init price_model
  head_unique name u h k = elim (defined_cases s.constraint _ _ name u h) [
    | inl e ↦ inl (some_eq e)
    | inr (e, l) ↦ absurd (f.no_unique name u l k)
  ]

  head-IsModel : IsModel price_model (head s rows)
  unfolding head after_optimize after_init price_model prices_table
  head-IsModel = record {
    table = refl;
    indexes = (refl, tt);
    uniques = (refl, tt);
    no_other_index = head_index;
    no_other_unique = head_unique;
  }

-- All operations of some revisions.
abbrev pub upgrades : List Revision → List Op
upgrades [] = []
upgrades (r ∷ rs) = r.upgrade ++ upgrades rs

abbrev pub downgrades : List Revision → List Op
downgrades [] = []
downgrades (r ∷ rs) = r.downgrade ++ downgrades rs

run_all-append :
    (run : Op → Catalog → Option Catalog) (xs ys : List Op) (s t : Catalog)
    → run_all run xs s ≡ some t
    → run_all run (xs ++ ys) s ≡ run_all run ys t
unfolding run_all
run_all-append run [] ys s t h = ap (run_all run ys) (sym (some_eq h))
run_all-append run (x ∷ xs) ys s t h =
    elim (run x s)
        as (λ r.
          and_then r (run_all run xs) ≡ some t
          → and_then r (run_all run (xs ++ ys)) ≡ run_all run ys t) [
            | none ↦ λ k. cc
            | some u ↦ λ k. run_all-append run xs ys u t k
          ]
      h

-- The revisions from the oldest to the newest.
abbrev pub revisions : List Revision
revisions = init_prices ∷ optimize_indexes ∷ add_unique_constraint ∷ []

abbrev pub newest_first : List Revision
newest_first = add_unique_constraint ∷ optimize_indexes ∷ init_prices ∷ []

-- On a database that knows nothing of `prices`, the upgrades of all three revisions succeed, and come to
-- exactly the table, the index and the unique constraint that the model declares. Whatever rows have
-- been stored since, the downgrades from there succeed, and come back to the database as it was.
pub migrations_roundtrip :
    (run : Op → Catalog → Option Catalog) (s : Catalog) (rows : Table)
    → IsDdl run
    → Fresh s
    → (run_all run (upgrades revisions) s ≡ some (head s []))
      × IsModel price_model (head s rows)
      × (run_all run (downgrades newest_first) (head s rows) ≡ some s)
migrations_roundtrip run s rows law f = (
  run_all-append run init_prices.upgrade _ s _ (init-up run law s f)
      ∙ run_all-append run optimize_indexes.upgrade _ _ _ (optimize-up run law s f [])
      ∙ run_all-append run add_unique_constraint.upgrade [] _ _ (unique-up run law s f [] tt)
      ∙ done run _,
  head-IsModel s f rows,
  run_all-append run add_unique_constraint.downgrade _ _ _ (unique-down run law s f rows)
      ∙ run_all-append run optimize_indexes.downgrade _ _ _ (optimize-down run law s f rows)
      ∙ run_all-append run init_prices.downgrade [] _ _ (init-down run law s f rows)
      ∙ done run _,
)
