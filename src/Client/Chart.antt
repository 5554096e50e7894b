-- ===== src/Client/Chart.antt =====
-- The answer to `get_index_chart_data`: which lists of points it is read as.
use deribit_price_collector.Prelude.{
  ◌≡◌, refl, ap, ◌∙◌, ◌↔◌, true, List, [], ◌∷◌, Bool-cases, inl, inr,
}
use deribit_price_collector.Prelude.Int.{ℤ, floor_div}
use deribit_price_collector.Exceptions.{ok, >>=-eq-ok, ok_eq}
use deribit_price_collector.Config.{Config}
use deribit_price_collector.Client.{Http, parse_points, parse_point, parse_pair}
use deribit_price_collector.Client.Value.{Json, Items, arr, nil, cons, truncate, is_number}

-- A pair of a number of milliseconds and a price, read as a point in whole seconds.
pub record PairOf (http : Http) (timestamp_ms price : Json) (point : ℤ × ℤ) : Type 0 where
  pub milliseconds : ℤ
  pub numeric : is_number timestamp_ms ≡ true
  pub counted : truncate timestamp_ms ≡ ok milliseconds
  pub priced : http.decimal price ≡ ok point.0
  pub timed : floor_div milliseconds 1000 ≡ point.1

abbrev pub PointOf : Http → Json → ℤ × ℤ → Type 0
PointOf http (arr (cons timestamp_ms (cons price nil))) point = PairOf http timestamp_ms price point
PointOf http _ point = ⊥

-- Item by item, in the same order and number.
abbrev pub PointsOf : Http → Items → List (ℤ × ℤ) → Type 0
PointsOf http nil [] = Unit
PointsOf http nil (p ∷ ps) = ⊥
PointsOf http (cons i is) [] = ⊥
PointsOf http (cons i is) (p ∷ ps) = PointOf http i p × PointsOf http is ps

module _ (c : Config) (http : Http) where
  pair_sound :
      (timestamp_ms price : Json) (point : ℤ × ℤ)
      → parse_pair c http timestamp_ms price ≡ ok point
      → PairOf http timestamp_ms price point
  pair_sound timestamp_ms price point h = elim (Bool-cases (is_number timestamp_ms)) [
    | inl e ↦
        let (units, p, k) = >>=-eq-ok (http.decimal price) _ (rw e at h) in
        let (ms, q, l) = >>=-eq-ok (truncate timestamp_ms) _ k in
        let same : (units, floor_div ms 1000) ≡ point = ok_eq l in
        record {
          milliseconds = ms;
          numeric = e;
          counted = q;
          priced = p ∙ ap (λ (z : ℤ × ℤ). ok z.0) same;
          timed = ap (λ (z : ℤ × ℤ). z.1) same;
        }
    | inr e ↦ cc (rw e at h)
  ]

  pair_complete :
      (timestamp_ms price : Json) (point : ℤ × ℤ)
      → PairOf http timestamp_ms price point
      → parse_pair c http timestamp_ms price ≡ ok point
  pair_complete timestamp_ms price point h =
      rw (h.numeric, h.priced, h.counted) (λ i. ok (point.0, h.timed i))

  point_sound :
      (item : Json) (point : ℤ × ℤ) → parse_point c http item ≡ ok point → PointOf http item point
  unfolding parse_point
  point_sound (arr (cons timestamp_ms (cons price nil))) point h =
      pair_sound timestamp_ms price point h
  point_sound _ point h = cc

  point_complete :
      (item : Json) (point : ℤ × ℤ) → PointOf http item point → parse_point c http item ≡ ok point
  unfolding parse_point
  point_complete (arr (cons timestamp_ms (cons price nil))) point h =
      pair_complete timestamp_ms price point h
  point_complete _ point h = absurd h

  points_sound :
      (items : Items) (points : List (ℤ × ℤ))
      → parse_points c http items ≡ ok points
      → PointsOf http items points
  unfolding parse_points
  points_sound nil [] h = tt
  points_sound nil (p ∷ ps) h = cc
  points_sound (cons i is) points h =
      let (q, k, l) = >>=-eq-ok (parse_point c http i) _ h in
      let (qs, m, n) = >>=-eq-ok (parse_points c http is) _ l in
      rw (← ok_eq n) (point_sound i q k, points_sound is qs m)

  points_complete :
      (items : Items) (points : List (ℤ × ℤ))
      → PointsOf http items points
      → parse_points c http items ≡ ok points
  unfolding parse_points
  points_complete nil [] h = refl
  points_complete nil (p ∷ ps) h = absurd h
  points_complete (cons i is) [] h = absurd h
  points_complete (cons i is) (p ∷ ps) h = rw (point_complete i p h.0, points_complete is ps h.1)

  -- A chart is read as a list of points exactly if its items are, one by one and in order, pairs of
  -- a number and a price that stand for those points; a single other item makes the call fail.
  pub parse_points_iff :
      (items : Items) (points : List (ℤ × ℤ))
      → (parse_points c http items ≡ ok points) ↔ PointsOf http items points
  parse_points_iff items points = (points_sound items points, points_complete items points)
