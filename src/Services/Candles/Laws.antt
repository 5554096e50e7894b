-- ===== src/Services/Candles/Laws.antt =====
-- What `get_candles` of app/services.py returns.
use deribit_price_collector.Prelude.{
  String, ◌≡◌, refl, sym, ap, ◌∙◌, ◌≢◌, inl, inr, true, false, Bool-cases, List, [], ◌∷◌, map, All,
  arith,
}
use deribit_price_collector.Prelude.Int.{ℤ, pos, ◌+ℤ◌, ◌-ℤ◌, ◌<ℤ◌, ◌≤ℤ◌, leb_ℤ, eq_ℤ, eq_ℤ_iff}
use mathlib.Core.List.Permᴰ
use deribit_price_collector.Prelude.Order.{
  All-of_Member, All-member, Ordered, Ordered-perm, Member, Member-perm, map-Member, Member-map,
}
use deribit_price_collector.Prelude.Sort.{sort, sort-perm, sort-Ordered}
use deribit_price_collector.Exceptions.{ok}
use deribit_price_collector.Prelude.{some}
use deribit_price_collector.Table.{Table, asc}
use deribit_price_collector.Table.Engine.{Engine, IsEngine}
use deribit_price_collector.Table.Unique.{IsTable}
use deribit_price_collector.Repository.{get_by_ticker_and_date_range}
use deribit_price_collector.Repository.Pages.{IsPage, get_by_ticker_and_date_range-IsPage}
use deribit_price_collector.Services.Candles.{get_candles}
use deribit_price_collector.Services.Candles.Times.{within, in_bucket-within}
use deribit_price_collector.Table.{Price}
use deribit_price_collector.Schemas.{CandleInterval, seconds}
use deribit_price_collector.Services.Candles.{CandleResponse, candles_from}
use deribit_price_collector.Services.Candles.Grouping.{
  bucket_start_of, keys, group, group-distinct, Member-group,
}
use deribit_price_collector.Services.Candles.Each.{IsCandle, candles_at, start_of_row}

-- The candles of some rows, in the order of their times and with no two alike; every row is covered.
pub record AreCandles (ticker : String) (i : CandleInterval) (prices : List Price)
    (candles : List CandleResponse) : Type 0 where
  pub ascending : Ordered ◌<ℤ◌ (map (λ (c : CandleResponse). c.bucket_start) candles)
  pub candle : All (IsCandle ticker i prices) candles
  pub complete :
      (r : Price)
      → Member r prices
      → (c : CandleResponse) × Member c candles × (within c.bucket_start c.bucket_end r ≡ true)

Ordered-lt : (xs : List ℤ) → Ordered ◌≤ℤ◌ xs → Ordered ◌≢◌ xs → Ordered ◌<ℤ◌ xs
Ordered-lt [] h d = tt
Ordered-lt (x ∷ xs) h d = (All-lt xs h.0 d.0, Ordered-lt xs h.1 d.1)
  where
    lt : (y : ℤ) → x ≤ℤ y → x ≢ y → x <ℤ y
    lt y p q = elim (Bool-cases (eq_ℤ x y)) [
      | inl e ↦ absurd (q ((eq_ℤ_iff x y).0 e))
      | inr e ↦ ground arith
    ]

    All-lt : (ys : List ℤ) → All (λ y. x ≤ℤ y) ys → All (λ y. x ≢ y) ys → All (λ y. x <ℤ y) ys
    All-lt [] p q = tt
    All-lt (y ∷ ys) p q = (lt y p.0 q.0, All-lt ys p.1 q.1)

le_of_leb : (a b : ℤ) → leb_ℤ a b ≡ true → a ≤ℤ b
le_of_leb a b h = ground arith

ge_of_leb : (a b : ℤ) → leb_ℤ a b ≡ false → b ≤ℤ a
ge_of_leb a b h = ground arith

le_trans_ℤ : (a b c : ℤ) → a ≤ℤ b → b ≤ℤ c → a ≤ℤ c
le_trans_ℤ a b c h k = omega arith

module _ (ticker : String) (i : CandleInterval) (prices : List Price) where
  abbrev sorted_starts : List ℤ
  sorted_starts = sort leb_ℤ (keys (group (seconds i) prices []))

  starts-Ordered : Ordered ◌<ℤ◌ sorted_starts
  starts-Ordered =
      Ordered-lt sorted_starts
        (sort-Ordered leb_ℤ ◌≤ℤ◌ le_of_leb ge_of_leb le_trans_ℤ
          (keys (group (seconds i) prices [])))
        (Ordered-perm ◌≢◌ (λ a b h e. h (sym e))
          (Permᴰ.symm (sort-perm leb_ℤ (keys (group (seconds i) prices []))))
          (group-distinct (seconds i) prices [] tt))

  covers :
      (r : Price) (c : CandleResponse)
      → c.bucket_start ≡ bucket_start_of (seconds i) r
      → IsCandle ticker i prices c
      → within c.bucket_start c.bucket_end r ≡ true
  covers r c p a =
      (λ j. within (p j) ((a.account.ends ∙ ap (λ z. (z +ℤ pos (seconds i)) -ℤ pos 1) p) j) r)
      ∙ sym (in_bucket-within i r r)
      ∙ (eq_ℤ_iff (bucket_start_of (seconds i) r) (bucket_start_of (seconds i) r)).1 refl

  -- The candles are computed from any rows: nothing raises.
  pub candles_from_lem :
      (candles : List CandleResponse) × (candles_from ticker (seconds i) prices ≡ ok candles)
      × AreCandles ticker i prices candles
  unfolding candles_from
  candles_from_lem =
      let moved = sort-perm leb_ℤ (keys (group (seconds i) prices [])) in
      let (cs, p, q, a) = candles_at ticker i prices sorted_starts (
        All-of_Member _ sorted_starts
          (λ k m. start_of_row ticker i prices k (Member-perm k moved m))) in
      (
        cs,
        p,
        record {
          ascending = rw q starts-Ordered;
          candle = a;
          complete = λ r m.
              let k = bucket_start_of (seconds i) r in
              let n : Member k sorted_starts = Member-perm k (Permᴰ.symm moved) (
                (Member-group (seconds i) k prices []).1
                  (inl (Member-map (bucket_start_of (seconds i)) r prices m))) in
              let (c, u, e) = map-Member (λ (c : CandleResponse). c.bucket_start) k cs (rw q n) in
              (c, u, covers r c (sym e) (All-member (IsCandle ticker i prices) c cs a u));
        },
      )

-- `get_candles` fails only if its query does. Otherwise the rows are the ticker's in the range, 10 000
-- at most and in the order of their times, and the candles are those of the rows: they ascend, each
-- row is covered by one, and each starts at a multiple of the interval and is as long, has the first
-- and the last price of the rows that it covers, of which there is one at least, their greatest and
-- least price, their number, and the average that the division gives.
pub get_candles_lem :
    (e : Engine) (t : Table) (ticker : String) (i : CandleInterval) (lo hi : ℤ)
    (prices : List Price)
    → IsEngine e
    → IsTable t
    → get_by_ticker_and_date_range e ticker (some lo) (some hi) 10_000 0 asc t ≡ ok prices
    → IsPage t ticker (some lo) (some hi) 10_000 asc prices
      × ((candles : List CandleResponse) × (get_candles e ticker i lo hi t ≡ ok candles)
          × AreCandles ticker i prices candles)
unfolding get_candles
get_candles_lem e t ticker i lo hi prices law v h = (
  get_by_ticker_and_date_range-IsPage e t ticker (some lo) (some hi) 10_000 0 asc prices law v h,
  let (candles, p, s) = candles_from_lem ticker i prices in (candles, rw h p, s),
)
