-- ===== src/Services/Candles/Each.antt =====
-- Each candle of `get_candles` of app/services.py, against the rows that it covers.
use mathlib.Core.Path.{fun_ext}
use deribit_price_collector.Prelude.{
  ℕ, String, ◌≡◌, refl, sym, ap, ◌∙◌, inl, inr, List, [], ◌∷◌, map, filter, length, last, All,
}
use deribit_price_collector.Prelude.Int.{ℤ, pos, ◌+ℤ◌, ◌-ℤ◌, ◌*ℤ◌, eq_ℤ_iff, floor_div}
use deribit_price_collector.Prelude.Order.{Member, Member-filter, map-Member}
use deribit_price_collector.Exceptions.{ok}
use deribit_price_collector.Services.Candles.Times.{within, in_bucket-within}
use deribit_price_collector.Table.{Price}
use deribit_price_collector.Schemas.{CandleInterval, seconds}
use deribit_price_collector.Services.Extremes.{
  average_of, average_of_runs, max_of, min_of, price_values, IsMax, IsMin, max_of-IsMax,
  min_of-IsMin,
}
use deribit_price_collector.Services.Candles.{CandleResponse, candle_of, candles_of}
use deribit_price_collector.Services.Candles.Grouping.{
  bucket_start_of, bucket_at, keys, group, in_bucket, bucket_at-group, Member-group,
}

-- What a candle of a bucket says of its rows, the first of which is `first`.
pub record IsCandleOf (ticker : String) (s : ℕ) (start : ℤ) (first : Price) (rest : List Price)
    (c : CandleResponse) : Type 0 where
  pub of_ticker : c.ticker ≡ ticker
  pub starts : c.bucket_start ≡ start
  pub ends : c.bucket_end ≡ (start +ℤ pos s) -ℤ pos 1
  pub opened : c.open_price ≡ first.price
  pub closed : c.close_price ≡ (last first rest).price
  pub high : IsMax c.high_price (price_values (first ∷ rest))
  pub low : IsMin c.low_price (price_values (first ∷ rest))
  pub average : average_of (first ∷ rest) ≡ ok c.average_price
  pub counted : c.points ≡ length (first ∷ rest)

candle_of_lem :
    (ticker : String) (s : ℕ) (start : ℤ) (first : Price) (rest : List Price)
    → (c : CandleResponse) × (candle_of ticker s start (first ∷ rest) ≡ ok c)
      × IsCandleOf ticker s start first rest c
unfolding candle_of
candle_of_lem ticker s start first rest =
    let (q, p) = average_of_runs first rest in
    (
      record {
        ticker = ticker;
        bucket_start = start;
        bucket_end = (start +ℤ pos s) -ℤ pos 1;
        open_price = first.price;
        high_price = max_of first.price (price_values rest);
        low_price = min_of first.price (price_values rest);
        close_price = (last first rest).price;
        average_price = q;
        points = length (first ∷ rest);
      },
      rw p,
      record {
        of_ticker = refl;
        starts = refl;
        ends = refl;
        opened = refl;
        closed = refl;
        high = max_of-IsMax first.price (price_values rest);
        low = min_of-IsMin first.price (price_values rest);
        average = p;
        counted = refl;
      },
    )

-- A candle of some rows: it accounts for those of them whose time it covers, and there is one.
pub record IsCandle (ticker : String) (i : CandleInterval) (prices : List Price)
    (c : CandleResponse) : Type 0 where
  pub first : Price
  pub rest : List Price
  pub covered : filter (within c.bucket_start c.bucket_end) prices ≡ first ∷ rest
  pub aligned : (q : ℤ) × (c.bucket_start ≡ q *ℤ pos (seconds i))
  pub account : IsCandleOf ticker (seconds i) c.bucket_start first rest c

bucket_rows :
    (s : ℕ) (k : ℤ) (prices : List Price)
    → bucket_at k (group s prices []) ≡ filter (in_bucket s k) prices
unfolding bucket_at
bucket_rows s k prices = bucket_at-group s k prices []

module _ (ticker : String) (i : CandleInterval) (prices : List Price) where
  -- The rows of a bucket that a row falls into.
  bucket_of_row :
      (r : Price)
      → Member r prices
      → (first : Price) × (rest : List Price) × (filter
            (in_bucket (seconds i) (bucket_start_of (seconds i) r))
            prices
          ≡ first ∷ rest)
  bucket_of_row r m =
      nonempty (filter (in_bucket (seconds i) (bucket_start_of (seconds i) r)) prices) (
        Member-filter (in_bucket (seconds i) (bucket_start_of (seconds i) r)) r prices m
          ((eq_ℤ_iff (bucket_start_of (seconds i) r) (bucket_start_of (seconds i) r)).1 refl))
    where
      nonempty :
          (rows : List Price)
          → Member r rows
          → (first : Price) × (rest : List Price) × (rows ≡ first ∷ rest)
      nonempty [] m = absurd m
      nonempty (x ∷ xs) m = (x, xs, refl)

  IsCandle-at :
      (r : Price)
      → Member r prices
      → (c : CandleResponse) × (candle_of ticker
            (seconds i)
            (bucket_start_of (seconds i) r)
            (bucket_at (bucket_start_of (seconds i) r) (group (seconds i) prices []))
          ≡ ok c)
        × (c.bucket_start ≡ bucket_start_of (seconds i) r)
        × IsCandle ticker i prices c
  IsCandle-at r m =
      let start = bucket_start_of (seconds i) r in
      let (first, rest, e) = bucket_of_row r m in
      let (c, p, a) = candle_of_lem ticker (seconds i) start first rest in
      (
        c,
        ap (candle_of ticker (seconds i) start) (bucket_rows (seconds i) start prices ∙ e) ∙ p,
        a.starts,
        record {
          first = first;
          rest = rest;
          covered =
              (λ j. filter (within (a.starts j) (a.ends j)) prices)
              ∙ ap (λ f. filter f prices) (fun_ext (λ x. sym (in_bucket-within i x r)))
              ∙ e;
          aligned = (floor_div r.timestamp (seconds i), a.starts ∙ unfold bucket_start_of in refl);
          account = rw a.starts a;
        },
      )

  pub candles_at :
      (starts : List ℤ)
      → All (λ k. (r : Price) × Member r prices × (k ≡ bucket_start_of (seconds i) r)) starts
      → (candles : List CandleResponse) × (candles_of ticker
            (seconds i)
            (group (seconds i) prices [])
            starts
          ≡ ok candles)
        × (map (λ (c : CandleResponse). c.bucket_start) candles ≡ starts)
        × All (IsCandle ticker i prices) candles
  unfolding candles_of
  candles_at [] h = ([], refl, refl, tt)
  candles_at (k ∷ starts) h =
      let (r, m, e) = h.0 in
      let (c, p, q, a) = IsCandle-at r m in
      let (cs, ps, qs, as') = candles_at starts h.1 in
      (c ∷ cs, rw (e, p, ps), λ j. (q ∙ sym e) j ∷ qs j, (a, as'))

  pub start_of_row :
      (k : ℤ)
      → Member k (keys (group (seconds i) prices []))
      → (r : Price) × Member r prices × (k ≡ bucket_start_of (seconds i) r)
  start_of_row k m = elim ((Member-group (seconds i) k prices []).0 m) [
    | inl n ↦ map-Member (bucket_start_of (seconds i)) k prices n
    | inr n ↦ absurd n
  ]
