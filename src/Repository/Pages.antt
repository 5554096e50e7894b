-- ===== src/Repository/Pages.antt =====
-- The paginated reads of app/repositories.py.
use deribit_price_collector.Prelude.{
  ℕ, ◌≤◌, String, ◌≡◌, refl, sym, ◌∙◌, true, List, ◌∷◌, ◌++◌, Option, none, some, All, arith,
  str_eq_iff, length,
}
use deribit_price_collector.Prelude.Int.{ℤ, ◌≤ℤ◌}
use deribit_price_collector.Prelude.Order.{Ordered, Member}
use deribit_price_collector.Exceptions.{ok}
use deribit_price_collector.Table.{Price, Table, Select, matches, ticker_eq, SortOrder, InOrder}
use deribit_price_collector.Table.Engine.{Engine, IsEngine, Answers}
use deribit_price_collector.Table.Answers.{
  IsMatch, All-answer, Ordered-answer, Ordered-answer_of, length-answer,
}
use deribit_price_collector.Table.Unique.{Distinct, IsTable}
use deribit_price_collector.Table.Unique.Member.{Distinct-symm}
use deribit_price_collector.Repository.{
  get_all_by_ticker, get_by_ticker_and_date_range, from_condition, to_condition,
}
use deribit_price_collector.Repository.Queries.{All-weaken}

-- An absent bound allows every time.
abbrev pub AtLeast : Option ℤ → ℤ → Type 0
AtLeast none n = Unit
AtLeast (some lo) n = lo ≤ℤ n

abbrev pub AtMost : Option ℤ → ℤ → Type 0
AtMost none n = Unit
AtMost (some hi) n = n ≤ℤ hi

-- What a page of a ticker's rows promises.
pub record IsPage (t : Table) (ticker : String) (lo hi : Option ℤ) (limit : ℕ) (sorting : SortOrder)
    (rows : List Price) : Type 0 where
  pub stored : All (λ r. Member r t) rows
  pub of_ticker : All (λ r. r.ticker ≡ ticker) rows
  pub from : All (λ r. AtLeast lo r.timestamp) rows
  pub to : All (λ r. AtMost hi r.timestamp) rows
  pub sorted : Ordered (InOrder (some sorting)) rows
  pub distinct : Ordered Distinct rows
  pub short : length rows ≤ limit

abbrev pub range_stmt : Engine → String → Option ℤ → Option ℤ → ℕ → ℕ → SortOrder → Select
range_stmt e ticker lo hi limit offset sorting = record {
  conditions = ticker_eq ticker ∷ (from_condition e lo ++ to_condition e hi);
  order = some sorting;
  limit = some limit;
  offset = offset;
}

pub date_range :
    (e : Engine) (ticker : String) (lo hi : Option ℤ) (limit offset : ℕ) (sorting : SortOrder)
    (r : Price)
    → matches (range_stmt e ticker lo hi limit offset sorting).conditions r ≡ true
    → (r.ticker ≡ ticker) × AtLeast lo r.timestamp × AtMost hi r.timestamp
date_range e ticker none none limit offset sorting r h = ground (arith, str_eq_iff r.ticker ticker)
date_range e ticker (some lo) none limit offset sorting r h =
    ground (arith, str_eq_iff r.ticker ticker)
date_range e ticker none (some hi) limit offset sorting r h =
    ground (arith, str_eq_iff r.ticker ticker)
date_range e ticker (some lo) (some hi) limit offset sorting r h =
    ground (arith, str_eq_iff r.ticker ticker)

-- A page by ticker and dates has at most `limit` rows, all of the ticker and within the bounds that
-- are given, in the order asked for and none twice.
pub get_by_ticker_and_date_range-IsPage :
    (e : Engine) (t : Table) (ticker : String) (lo hi : Option ℤ) (limit offset : ℕ)
    (sorting : SortOrder) (rows : List Price)
    → IsEngine e
    → IsTable t
    → get_by_ticker_and_date_range e ticker lo hi limit offset sorting t ≡ ok rows
    → IsPage t ticker lo hi limit sorting rows
unfolding get_by_ticker_and_date_range
get_by_ticker_and_date_range-IsPage e t ticker lo hi limit offset sorting rows law v h =
    let q = range_stmt e ticker lo hi limit offset sorting in
    let a : Answers q t rows = law.answers q t rows h in
    let m : All (IsMatch q t) rows = All-answer q t rows a in
    let in_bounds = date_range e ticker lo hi limit offset sorting in
    record {
      stored = All-weaken rows (λ r k. k.stored) m;
      of_ticker = All-weaken rows (λ r k. (in_bounds r k.matching).0) m;
      from = All-weaken rows (λ r k. (in_bounds r k.matching).1) m;
      to = All-weaken rows (λ r k. (in_bounds r k.matching).2) m;
      sorted = Ordered-answer q t rows a;
      distinct = Ordered-answer_of q t rows a Distinct Distinct-symm v;
      short = length-answer q t rows a limit refl;
    }

-- `get_all_by_ticker` is the read by dates with neither bound: it has at most `limit` rows, all of the
-- ticker, in the order asked for and none twice, and is what that read returns, errors included.
pub get_all_by_ticker_lem :
    (e : Engine) (t : Table) (ticker : String) (limit offset : ℕ) (sorting : SortOrder)
    → IsEngine e
    → IsTable t
    → (get_all_by_ticker e ticker limit offset sorting t
        ≡ get_by_ticker_and_date_range e ticker none none limit offset sorting t)
      × ((rows : List Price)
          → get_all_by_ticker e ticker limit offset sorting t ≡ ok rows
          → IsPage t ticker none none limit sorting rows)
get_all_by_ticker_lem e t ticker limit offset sorting law v =
    let same : get_all_by_ticker e ticker limit offset sorting t
        ≡ get_by_ticker_and_date_range e ticker none none limit offset sorting t =
      unfold get_all_by_ticker get_by_ticker_and_date_range in refl in
    (
      same,
      λ rows h.
          get_by_ticker_and_date_range-IsPage e t ticker none none limit offset sorting rows law v
            (sym same ∙ h),
    )
