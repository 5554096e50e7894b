-- ===== src/Tasks/Backfill/Loop.antt =====
-- The loops of `backfill_price_history` against a plain account of the charts that the client gave.
use deribit_price_collector.Prelude.{
  String, ◌≡◌, refl, ◌∙◌, inl, inr, List, [], ◌∷◌, ◌++◌, Bool-cases,
}
use deribit_price_collector.Prelude.Int.{ℤ}
use deribit_price_collector.Exceptions.{
  Result, ok, err, is_collection_permanent, is_collection_transient, >>=-eq-ok, ok_eq,
}
use deribit_price_collector.Config.{Config}
use deribit_price_collector.Providers.{HistoryRange}
use deribit_price_collector.Table.{Table}
use deribit_price_collector.Table.Engine.{Engine, IsEngine}
use deribit_price_collector.Table.Unique.{IsTable}
use deribit_price_collector.Table.Unique.Write.{price_at}
use deribit_price_collector.Repository.{save_price}
use deribit_price_collector.Repository.Save.{save_price-put}
use deribit_price_collector.Client.{Http, get_index_chart_data}
use deribit_price_collector.Tasks.Fetch.Loop.{
  Point, SameView, put_all, put_all-append, put_all-SameView,
}
use deribit_price_collector.Tasks.Backfill.{save_points, backfill_ticker, backfill_tickers}

abbrev pub points_of : String → List (ℤ × ℤ) → List Point
points_of ticker [] = []
points_of ticker ((price, timestamp) ∷ points) =
    (ticker, price, timestamp) ∷ points_of ticker points

abbrev pub chart_of : String → Result (List (ℤ × ℤ)) → List Point
chart_of ticker (ok points) = points_of ticker points
chart_of ticker (err exc) = []

-- The points of the charts that the client gives for the tickers, in their order.
abbrev pub history : Config → Http → HistoryRange → List String → List Point
history c http chart_range [] = []
history c http chart_range (ticker ∷ tickers) =
    chart_of ticker (get_index_chart_data c http ticker chart_range)
    ++ history c http chart_range tickers

-- The rows after some points have been saved.
pub record Saved (points : List Point) (before after : Table) : Type 0 where
  pub valid : IsTable after
  pub view : SameView (price_at after) (put_all points (price_at before))

Saved-none : (t : Table) → IsTable t → Saved [] t t
Saved-none t v = record { valid = v; view = λ a b. refl }

Saved-trans :
    (xs ys : List Point) (a b d : Table) → Saved xs a b → Saved ys b d → Saved (xs ++ ys) a d
Saved-trans xs ys a b d x y = record {
  valid = y.valid;
  view = rw put_all-append (λ k n. y.view k n ∙ put_all-SameView ys x.view k n);
}

module _ (e : Engine) (law : IsEngine e) where
  save_points-Saved :
      (ticker : String) (points : List (ℤ × ℤ)) (t t' : Table)
      → IsTable t
      → save_points e ticker points t ≡ ok t'
      → Saved (points_of ticker points) t t'
  unfolding save_points
  save_points-Saved ticker [] t t' v h = rw (← ok_eq h) (Saved-none t v)
  save_points-Saved ticker ((price, timestamp) ∷ points) t t' v h =
      let (out, p, q) = >>=-eq-ok (save_price e ticker price timestamp t) _ h in
      let (w, s) = save_price-put e law ticker price timestamp t out v p in
      Saved-trans ((ticker, price, timestamp) ∷ []) _ t out.1 t' (record { valid = w; view = s })
        (save_points-Saved ticker points out.1 t' w q)

  pub backfill_ticker-Saved :
      (ticker : String) (r : Result (List (ℤ × ℤ))) (t t' : Table)
      → IsTable t
      → backfill_ticker e ticker r t ≡ ok t'
      → Saved (chart_of ticker r) t t'
  unfolding backfill_ticker
  backfill_ticker-Saved ticker (ok points) t t' v h = save_points-Saved ticker points t t' v h
  backfill_ticker-Saved ticker (err x) t t' v h = elim (Bool-cases (is_collection_permanent x)) [
    | inl f ↦ rw (← ok_eq (rw f at h)) (Saved-none t v)
    | inr f ↦ elim (Bool-cases (is_collection_transient x)) [
      | inl g ↦ cc (rw (f, g) at h)
      | inr g ↦ cc (rw (f, g) at h)
    ]
  ]

  pub backfill_tickers-Saved :
      (c : Config) (http : Http) (chart_range : HistoryRange) (tickers : List String) (t t' : Table)
      → IsTable t
      → backfill_tickers c http e chart_range tickers t ≡ ok t'
      → Saved (history c http chart_range tickers) t t'
  unfolding backfill_tickers
  backfill_tickers-Saved c http chart_range [] t t' v h = rw (← ok_eq h) (Saved-none t v)
  backfill_tickers-Saved c http chart_range (ticker ∷ tickers) t t' v h =
      let chart = get_index_chart_data c http ticker chart_range in
      let (z, p, q) = >>=-eq-ok (backfill_ticker e ticker chart t) _ h in
      let first = backfill_ticker-Saved ticker chart t z v p in
      Saved-trans _ _ t z t' first
        (backfill_tickers-Saved c http chart_range tickers z t' first.valid q)
