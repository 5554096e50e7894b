-- ===== src/Migrations/Laws.antt =====
-- The revisions one after the other, forth and back.
use deribit_price_collector.Prelude.{
  String, ◌≡◌, refl, sym, ap, ◌∙◌, inl, inr, Bool-cases, Option, none, some, List, [], ◌∷◌, str_eq,
  str_eq_iff,
}
use deribit_price_collector.Table.{Table}
use deribit_price_collector.Table.Unique.{IsTable}
use deribit_price_collector.Migrations.{
  IndexDef, UniqueDef, Op, init_prices, optimize_indexes, add_unique_constraint, prices_table,
  ticker_index, timestamp_index, ticker_timestamp_index, ticker_timestamp_unique,
}
use deribit_price_collector.Migrations.Catalog.{Catalog, IsDdl, define, run_all}

-- A database that knows nothing of `prices` yet.
pub record Fresh (s : Catalog) : Type 0 where
  pub no_table : s.table "prices" ≡ none
  pub no_ticker_index : s.index "ix_prices_ticker" ≡ none
  pub no_timestamp_index : s.index "ix_prices_timestamp" ≡ none
  pub no_pair_index : s.index "ix_prices_ticker_timestamp" ≡ none
  pub no_constraint : s.constraint "uq_prices_ticker_timestamp" ≡ none
  pub no_index :
      (name : String) (i : IndexDef) → s.index name ≡ some i → i.table_name ≡ "prices" → ⊥
  pub no_unique :
      (name : String) (u : UniqueDef) → s.constraint name ≡ some u → u.table_name ≡ "prices" → ⊥
  pub no_rows : s.rows ≡ []

undefine {ℓ} :
    {A : Type ℓ} (f : String → Option A) (name : String) (x : Option A)
    → f name ≡ none
    → define (define f name x) name none ≡ f
undefine f name x h i other = go other i
  where
    go : (other : String) → define (define f name x) name none other ≡ f other
    go other = elim (Bool-cases (str_eq name other)) [
      | inl e ↦ rw (e, ← (str_eq_iff name other).0 e) (sym h)
      | inr e ↦ rw e refl
    ]

two_defined : (g : String → Option IndexDef) → String → Option IndexDef
two_defined g =
    define (define g "ix_prices_ticker" (some ticker_index)) "ix_prices_timestamp"
      (some timestamp_index)

-- The two indexes dropped and created again, in the other order.
two_again : (g : String → Option IndexDef) → String → Option IndexDef
two_again g =
    define
      (define (define (define (two_defined g) "ix_prices_ticker" none) "ix_prices_timestamp" none)
        "ix_prices_timestamp" (some timestamp_index))
      "ix_prices_ticker" (some ticker_index)

two_again_same : (g : String → Option IndexDef) → two_again g ≡ two_defined g
unfolding two_again two_defined
two_again_same g i other = go other i
  where
    go : (other : String) → two_again g other ≡ two_defined g other
    go other =
        unfold two_again two_defined in
        elim (Bool-cases (str_eq "ix_prices_ticker" other)) [
          | inl e ↦ rw (← (str_eq_iff "ix_prices_ticker" other).0 e) refl
          | inr e ↦ elim (Bool-cases (str_eq "ix_prices_timestamp" other)) [
            | inl h ↦ rw (e, h) refl
            | inr h ↦ rw (e, h) refl
          ]
        ]

module _ (s : Catalog) where
  unfoldable pub after_init : Table → Catalog
  after_init rows = record {
    table = define s.table "prices" (some prices_table);
    index =
        define (define s.index "ix_prices_ticker" (some ticker_index)) "ix_prices_timestamp"
          (some timestamp_index);
    constraint = s.constraint;
    rows = rows;
  }

  unfoldable pub after_optimize : Table → Catalog
  unfolding after_init
  after_optimize rows = record (after_init rows) {
    index =
        define
          (define (define (after_init rows).index "ix_prices_ticker" none) "ix_prices_timestamp"
            none)
          "ix_prices_ticker_timestamp" (some ticker_timestamp_index);
  }

  -- The schema of the newest revision, with some rows.
  unfoldable pub head : Table → Catalog
  unfolding after_optimize
  head rows = record (after_optimize rows) {
    constraint = define s.constraint "uq_prices_ticker_timestamp" (some ticker_timestamp_unique);
  }

module _ (run : Op → Catalog → Option Catalog) where
  step :
      (op : Op) (ops : List Op) (s t : Catalog) (u : Option Catalog)
      → run op s ≡ some t
      → run_all run ops t ≡ u
      → run_all run (op ∷ ops) s ≡ u
  unfolding run_all
  step op ops s t u h k = rw (h, run_all) k

  pub done : (s : Catalog) → run_all run [] s ≡ some s
  unfolding run_all
  done s = refl

module _ (run : Op → Catalog → Option Catalog) (law : IsDdl run) (s : Catalog) (f : Fresh s) where
  pub init-up : run_all run init_prices.upgrade s ≡ some (after_init s [])
  unfolding init_prices prices_table after_init two_defined
  init-up = step run _ _ _ _ _ (law.creates_table prices_table s refl f.no_table) (
      step run _ _ _ _ _ (law.creates_index ticker_index prices_table _ f.no_ticker_index refl) (
        step run _ _ _ _ _
          (law.creates_index timestamp_index prices_table _ f.no_timestamp_index refl)
          (done run _)))

  index-back :
      define (define (two_defined s.index) "ix_prices_timestamp" none) "ix_prices_ticker" none
      ≡ s.index
  unfolding two_defined
  index-back =
      ap (λ h. define h "ix_prices_ticker" none)
        (undefine (define s.index "ix_prices_ticker" (some ticker_index)) "ix_prices_timestamp" _
          f.no_timestamp_index)
      ∙ undefine s.index "ix_prices_ticker" _ f.no_ticker_index

  pair-back :
      (rows : Table)
      → define
          (define
            (define (after_optimize s rows).index "ix_prices_ticker_timestamp" none)
            "ix_prices_timestamp"
            (some timestamp_index))
          "ix_prices_ticker"
          (some ticker_index)
        ≡ (after_init s rows).index
  unfolding after_init after_optimize two_defined two_again
  pair-back rows =
      ap
        (λ h.
          define (define h "ix_prices_timestamp" (some timestamp_index)) "ix_prices_ticker"
            (some ticker_index))
        (undefine
          (define (define (two_defined s.index) "ix_prices_ticker" none) "ix_prices_timestamp" none)
          "ix_prices_ticker_timestamp" _ f.no_pair_index)
      ∙ two_again_same s.index

  pub init-down : (rows : Table) → run_all run init_prices.downgrade (after_init s rows) ≡ some s
  unfolding init_prices prices_table after_init two_defined
  init-down rows = step run _ _ _ _ _ (law.drops_index timestamp_index (after_init s rows) refl) (
      step run _ _ _ _ _ (law.drops_index ticker_index _ refl) (
        step run _ _ _ _ _
          (law.drops_table prices_table _ refl
            (λ name i h k. f.no_index name i ((λ j. sym index-back j name) ∙ h) k))
          (done run _ ∙ (λ i. some (record s {
            table = undefine s.table "prices" (some prices_table) f.no_table i;
            index = index-back i;
            rows = sym f.no_rows i;
          })))))

  pub optimize-up :
      (rows : Table)
      → run_all run optimize_indexes.upgrade (after_init s rows) ≡ some (after_optimize s rows)
  unfolding optimize_indexes after_init after_optimize
  optimize-up rows = step run _ _ _ _ _ (law.drops_index ticker_index _ refl) (
      step run _ _ _ _ _ (law.drops_index timestamp_index _ refl) (
        step run _ _ _ _ _
          (law.creates_index ticker_timestamp_index prices_table _ f.no_pair_index refl)
          (done run _)))

  pub optimize-down :
      (rows : Table)
      → run_all run optimize_indexes.downgrade (after_optimize s rows) ≡ some (after_init s rows)
  unfolding optimize_indexes after_init after_optimize
  optimize-down rows = step run _ _ _ _ _ (law.drops_index ticker_timestamp_index _ refl) (
      step run _ _ _ _ _ (law.creates_index timestamp_index prices_table _ refl refl) (
        step run _ _ _ _ _ (law.creates_index ticker_index prices_table _ refl refl)
          (done run _ ∙ (λ i. some (record (after_init s rows) { index = pair-back rows i })))))

  pub unique-up :
      (rows : Table)
      → IsTable rows
      → run_all run add_unique_constraint.upgrade (after_optimize s rows) ≡ some (head s rows)
  unfolding add_unique_constraint after_init after_optimize head
  unique-up rows v =
      step run _ _ _ _ _
        (law.creates_unique ticker_timestamp_unique prices_table _ refl refl f.no_constraint refl v)
        (done run _)

  pub unique-down :
      (rows : Table)
      → run_all run add_unique_constraint.downgrade (head s rows) ≡ some (after_optimize s rows)
  unfolding add_unique_constraint after_init after_optimize head
  unique-down rows = step run _ _ _ _ _ (law.drops_unique ticker_timestamp_unique _ refl) (
      done run _
      ∙ ap (λ g. some (record (after_optimize s rows) { constraint = g }))
          (undefine s.constraint "uq_prices_ticker_timestamp" (some ticker_timestamp_unique)
            f.no_constraint))
