-- ===== src/Services/Candles/Times.antt =====
-- The times of a candle: with the interval a numeral all of this is linear.
use deribit_price_collector.Prelude.{◌≡◌, Bool, ◌&&◌, arith}
use deribit_price_collector.Prelude.Int.{ℤ, pos, ◌+ℤ◌, ◌-ℤ◌, ◌*ℤ◌, leb_ℤ, eq_ℤ, floor_div}
use deribit_price_collector.Schemas.{
  CandleInterval, seconds, one_minute, five_minutes, one_hour, one_day,
}
use deribit_price_collector.Table.{Price}
use deribit_price_collector.Services.Candles.Grouping.{bucket_start_of, in_bucket}

-- The row's time is one of those from `lo` to `hi`.
abbrev pub within : ℤ → ℤ → Price → Bool
within lo hi r = leb_ℤ lo r.timestamp && leb_ℤ r.timestamp hi

-- A row is in the bucket of another exactly if its time is from the start of the bucket to its end.
pub in_bucket-within :
    (i : CandleInterval) (a b : Price)
    → in_bucket (seconds i) (bucket_start_of (seconds i) b) a
      ≡ within
          (bucket_start_of (seconds i) b)
          ((bucket_start_of (seconds i) b +ℤ pos (seconds i)) -ℤ pos 1)
          a
unfolding bucket_start_of
in_bucket-within i a b = go i a.timestamp b.timestamp
  where
    go :
        (i : CandleInterval) (x y : ℤ)
        → eq_ℤ
            (floor_div x (seconds i) *ℤ pos (seconds i))
            (floor_div y (seconds i) *ℤ pos (seconds i))
          ≡ (leb_ℤ (floor_div y (seconds i) *ℤ pos (seconds i)) x
              && leb_ℤ x
                  (((floor_div y (seconds i) *ℤ pos (seconds i)) +ℤ pos (seconds i)) -ℤ pos 1))
    go one_minute x y = unfold seconds floor_div ◌*ℤ◌ ◌+ℤ◌ ◌-ℤ◌ in ground arith
    go five_minutes x y = unfold seconds floor_div ◌*ℤ◌ ◌+ℤ◌ ◌-ℤ◌ in ground arith
    go one_hour x y = unfold seconds floor_div ◌*ℤ◌ ◌+ℤ◌ ◌-ℤ◌ in ground arith
    go one_day x y = unfold seconds floor_div ◌*ℤ◌ ◌+ℤ◌ ◌-ℤ◌ in ground arith
