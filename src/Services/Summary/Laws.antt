-- ===== src/Services/Summary/Laws.antt =====
-- What `get_price_summary` of app/services.py returns.
use deribit_price_collector.Prelude.{
  String, ◌≡◌, ◌≢◌, refl, map, inl, inr, Bool-cases, false, Option, none, some, List, [], ◌∷◌,
  length, last, arith, ◌==◌,
}
use deribit_price_collector.Prelude.Int.{ℤ, pos, ◌-ℤ◌, ◌<ℤ◌, eq_ℤ, eq_ℤ_iff}
use deribit_price_collector.Exceptions.{ok}
use deribit_price_collector.Decimal.{Decimal, divide, sum_of, times, of_units, of_nat, size_of}
use deribit_price_collector.Decimal.Laws.{divide_runs}
use deribit_price_collector.Table.{Price, Table, asc}
use deribit_price_collector.Table.Engine.{Engine, IsEngine}
use deribit_price_collector.Table.Unique.{IsTable}
use deribit_price_collector.Repository.{get_by_ticker_and_date_range}
use deribit_price_collector.Repository.Pages.{IsPage, get_by_ticker_and_date_range-IsPage}
use deribit_price_collector.Services.Extremes.{
  average_of, average_of_runs, price_values, max_of, min_of, IsMax, IsMin, max_of-IsMax,
  min_of-IsMin,
}
use deribit_price_collector.Services.Summary.{
  PriceSummaryResponse, trend_of, percent_of, summary_of, get_price_summary,
}

-- What the summary of some rows says, the first of which is `first`.
pub record IsSummaryOf (ticker : String) (lo hi : ℤ) (first : Price) (rest : List Price)
    (s : PriceSummaryResponse) : Type 0 where
  pub of_ticker : s.ticker ≡ ticker
  pub from : s.timestamp_from ≡ lo
  pub to : s.timestamp_to ≡ hi
  pub counted : s.points ≡ length (first ∷ rest)
  pub least : IsMin s.min_price (price_values (first ∷ rest))
  pub most : IsMax s.max_price (price_values (first ∷ rest))
  pub starts : s.start_price ≡ first.price
  pub ends : s.end_price ≡ (last first rest).price
  pub change : s.price_change ≡ s.end_price -ℤ s.start_price
  pub rising : s.start_price <ℤ s.end_price → s.trend ≡ "up"
  pub falling : s.end_price <ℤ s.start_price → s.trend ≡ "down"
  pub steady : s.start_price ≡ s.end_price → s.trend ≡ "flat"
  pub no_percent : s.start_price ≡ pos 0 → s.price_change_percent ≡ of_nat 0
  pub percent :
      s.start_price ≢ pos 0
      → (quotient : Decimal) × (divide (of_units s.price_change) (of_units s.start_price)
          ≡ ok quotient)
        × (s.price_change_percent ≡ times quotient (of_nat 100))
  pub average :
      divide
        (sum_of (of_nat 0) (map of_units (price_values (first ∷ rest))))
        (of_nat (length (first ∷ rest)))
      ≡ ok s.average_price

-- No summary of no rows, and one of any others.
abbrev pub IsSummary : String → ℤ → ℤ → List Price → Option PriceSummaryResponse → Type 0
IsSummary ticker lo hi [] none = Unit
IsSummary ticker lo hi [] (some s) = ⊥
IsSummary ticker lo hi (p ∷ ps) none = ⊥
IsSummary ticker lo hi (p ∷ ps) (some s) = IsSummaryOf ticker lo hi p ps s

trend_up : (a b : ℤ) → a <ℤ b → trend_of (b -ℤ a) ≡ "up"
unfolding trend_of ◌-ℤ◌
trend_up a b h = ground arith

trend_down : (a b : ℤ) → b <ℤ a → trend_of (b -ℤ a) ≡ "down"
unfolding trend_of ◌-ℤ◌
trend_down a b h = ground arith

trend_flat : (a b : ℤ) → a ≡ b → trend_of (b -ℤ a) ≡ "flat"
unfolding trend_of ◌-ℤ◌
trend_flat a b h = rw h (ground arith)

size_of_zero : (n : ℤ) → eq_ℤ n (pos 0) ≡ false → (size_of n == 0) ≡ false
size_of_zero n h = ground arith

-- What a percentage is: 0 if the start is 0, and else the quotient times 100.
record IsPercent (change start : ℤ) (percent : Decimal) : Type 0 where
  at_zero : start ≡ pos 0 → percent ≡ of_nat 0
  quotient :
      start ≢ pos 0
      → (quotient : Decimal) × (divide (of_units change) (of_units start) ≡ ok quotient)
        × (percent ≡ times quotient (of_nat 100))

-- A percentage is never a division by zero.
percent_of_lem :
    (change start : ℤ)
    → (percent : Decimal) × (percent_of change start ≡ ok percent) × IsPercent change start percent
unfolding percent_of
percent_of_lem change start = elim (Bool-cases (eq_ℤ start (pos 0))) [
  | inl e ↦ (
    of_nat 0,
    rw e,
    record { at_zero = λ z. refl; quotient = λ n. absurd (n ((eq_ℤ_iff start (pos 0)).0 e)) },
  )
  | inr e ↦
      let (q, p) = divide_runs (of_units change) (of_units start) (size_of_zero start e) in
      (
        times q (of_nat 100),
        rw (e, p),
        record {
          at_zero = λ z. let k = (eq_ℤ_iff start (pos 0)).1 z in cc (rw e at k);
          quotient = λ n. (q, p, refl);
        },
      )
]

summary_of_lem :
    (ticker : String) (lo hi : ℤ) (prices : List Price)
    → (out : Option PriceSummaryResponse) × (summary_of ticker lo hi prices ≡ ok out)
      × IsSummary ticker lo hi prices out
unfolding summary_of
summary_of_lem ticker lo hi [] = (none, refl, tt)
summary_of_lem ticker lo hi (first ∷ rest) =
    let (percent, p, is_percent) =
      percent_of_lem ((last first rest).price -ℤ first.price) first.price in
    let (average, q) = average_of_runs first rest in
    (
      some (record {
        ticker = ticker;
        timestamp_from = lo;
        timestamp_to = hi;
        points = length (first ∷ rest);
        min_price = min_of first.price (price_values rest);
        max_price = max_of first.price (price_values rest);
        average_price = average;
        price_change = (last first rest).price -ℤ first.price;
        price_change_percent = percent;
        start_price = first.price;
        end_price = (last first rest).price;
        trend = trend_of ((last first rest).price -ℤ first.price);
      }),
      rw (p, q),
      record {
        of_ticker = refl;
        from = refl;
        to = refl;
        counted = refl;
        least = min_of-IsMin first.price (price_values rest);
        most = max_of-IsMax first.price (price_values rest);
        starts = refl;
        ends = refl;
        change = refl;
        rising = trend_up first.price (last first rest).price;
        falling = trend_down first.price (last first rest).price;
        steady = trend_flat first.price (last first rest).price;
        no_percent = is_percent.at_zero;
        percent = is_percent.quotient;
        average = unfold average_of in q;
      },
    )

-- `get_price_summary` fails only if its query does. Otherwise the rows are the ticker's in the range,
-- 10 000 at most and in the order of their times, and it returns nothing if there is none, and else
-- their summary: their number, least and greatest price, the first and the last price with their
-- difference, a trend that is the sign of it, the average as the decimal sum of the prices over their
-- number, and the percentage, which is 0 for a start at 0 and else a hundred times the decimal quotient
-- of the difference and the start.
pub get_price_summary_lem :
    (e : Engine) (t : Table) (ticker : String) (lo hi : ℤ) (prices : List Price)
    → IsEngine e
    → IsTable t
    → get_by_ticker_and_date_range e ticker (some lo) (some hi) 10_000 0 asc t ≡ ok prices
    → IsPage t ticker (some lo) (some hi) 10_000 asc prices
      × ((out : Option PriceSummaryResponse) × (get_price_summary e ticker lo hi t ≡ ok out)
          × IsSummary ticker lo hi prices out)
unfolding get_price_summary
get_price_summary_lem e t ticker lo hi prices law v h = (
  get_by_ticker_and_date_range-IsPage e t ticker (some lo) (some hi) 10_000 0 asc prices law v h,
  let (out, p, s) = summary_of_lem ticker lo hi prices in (out, rw h p, s),
)
