-- ===== src/Api/Prices/Laws.antt =====
-- How the routes under /prices of app/api/endpoints.py end.
use deribit_price_collector.Prelude.{
  String, ◌≡◌, ◌≢◌, ◌∷◌, refl, sym, ◌∙◌, ◌↔◌, true, Option, none, some, List, [],
}
use deribit_price_collector.Prelude.Int.{ℤ, pos_part}
use deribit_price_collector.Exceptions.{Result, ok, ok_eq, >>=-eq-ok}
use deribit_price_collector.Config.{Config}
use deribit_price_collector.Table.{Price, Table, asc}
use deribit_price_collector.Table.Engine.{Engine, IsEngine}
use deribit_price_collector.Table.Unique.{IsTable}
use deribit_price_collector.Providers.{in_supported_ticker_set}
use deribit_price_collector.Repository.{
  get_by_ticker_and_date_range, get_all_by_ticker, get_latest_by_ticker, latest_stmt,
}
use deribit_price_collector.Repository.Pages.{
  IsPage, get_by_ticker_and_date_range-IsPage, get_all_by_ticker_lem,
}
use deribit_price_collector.Repository.Paging.{
  NoRow, first_page-NoRow, listed_page, IsListedPage, page_of_listing,
}
use deribit_price_collector.Repository.Latest.{IsLatest, get_latest_by_ticker_lem}
use deribit_price_collector.Schemas.{
  TickerWithPaginationQuery, PriceByDateQuery, CandleQuery, PriceSummaryQuery,
  ticker_with_pagination_query, price_by_date_query, candle_query, price_summary_query,
  validate_ticker,
}
use deribit_price_collector.Schemas.Laws.{
  IsDateQuery, IsCandleQuery, price_by_date_query_iff, candle_query_iff, validate_ticker_ok,
}
use deribit_price_collector.Schemas.Queries.{
  IsListQuery, IsSummaryQuery, ticker_with_pagination_query_iff, price_summary_query_iff,
}
use deribit_price_collector.Services.Candles.{get_candles}
use deribit_price_collector.Services.Candles.Laws.{AreCandles, get_candles_lem}
use deribit_price_collector.Services.Summary.{PriceSummaryResponse}
use deribit_price_collector.Services.Summary
use deribit_price_collector.Services.Summary.Laws.{IsSummary, get_price_summary_lem}
use deribit_price_collector.Api.Prices.{
  get_all_prices, get_prices_by_date, get_price_candles, get_price_summary, get_latest_price,
  no_query_data, no_ticker_data,
}
use deribit_price_collector.Api.Prices.Ends.{
  Replied, Reads, Rows, Newest, replied_by, Rows-replied, candles_replied, IsSummary-replied,
  IsLatest-replied,
}

validate_ticker_iff :
    (c : Config) (ticker out : String)
    → (validate_ticker c ticker ≡ ok out)
      ↔ ((in_supported_ticker_set c ticker ≡ ok true) × (out ≡ ticker))
validate_ticker_iff c ticker out =
    (validate_ticker_ok c ticker out, λ h. unfold validate_ticker in rw (h.0, h.1))

-- What the read of the newest row returns when it does not fail.
IsLatest-of :
    (e : Engine)
    → IsEngine e
    → (t : Table) (ticker : String) (row : Option Price) → get_latest_by_ticker e ticker t ≡ ok row
    → IsLatest t ticker row
unfolding get_latest_by_ticker
IsLatest-of e law t ticker row p =
    let (rows, q, h) = >>=-eq-ok (e.execute (latest_stmt e ticker) t) _ p in
    let (row', r, a) = get_latest_by_ticker_lem e law t ticker rows q in rw (ok_eq (sym p ∙ r)) a

-- The range that a candle or a summary is made of.
abbrev pub range_of : Engine → Table → String → ℤ → ℤ → Result (List Price)
range_of e t ticker lo hi = get_by_ticker_and_date_range e ticker (some lo) (some hi) 10_000 0 asc t

abbrev pub RangePage : Table → String → ℤ → ℤ → List Price → Type 0
RangePage t ticker lo hi = IsPage t ticker (some lo) (some hi) 10_000 asc

RangePage-some :
    (t : Table) (ticker : String) (lo hi : ℤ) (rows : List Price)
    → RangePage t ticker lo hi rows
    → rows ≢ []
    → ¬ NoRow t ticker lo hi
RangePage-some t ticker lo hi [] page h empty = h refl
RangePage-some t ticker lo hi (r ∷ rows) page h empty =
    empty r page.stored.0 page.of_ticker.0 page.from.0 page.to.0

module _ (c : Config) (e : Engine) (t : Table) (law : IsEngine e) (v : IsTable t) where
  Reads-of :
      (ticker : String) (lo hi : ℤ) (rows : List Price)
      → range_of e t ticker lo hi ≡ ok rows
      → Reads (NoRow t ticker lo hi) (RangePage t ticker lo hi) rows
  Reads-of ticker lo hi rows p =
      let page =
        get_by_ticker_and_date_range-IsPage e t ticker (some lo) (some hi) 10_000 0 asc rows law v
          p in
      record {
        page = page;
        none_left = λ h. first_page-NoRow e t ticker lo hi 9_999 asc law v (rw h at p);
        some_left = RangePage-some t ticker lo hi rows page;
      }

  -- `GET /prices` ends in one of four ways: a query that breaks a rule is a validation error; a failure
  -- of the database is raised as it is; the page asked for is the `limit` rows after the first `offset`
  -- of the ticker's rows, sorted by their times, and the reply is 404 exactly if it is empty, and else its
  -- rows, at most `limit`, all of the ticker and in the order asked for.
  pub get_all_prices-Replied :
      (q : TickerWithPaginationQuery)
      → Replied
          (IsListQuery c q)
          (get_all_by_ticker e q.ticker (pos_part q.limit) (pos_part q.offset) q.sorting t)
          (λ rows.
            listed_page t q.ticker none none (pos_part q.limit) (pos_part q.offset) q.sorting ≡ [])
          (Rows
            (IsListedPage t q.ticker none none (pos_part q.limit) (pos_part q.offset) q.sorting))
          no_ticker_data
          (get_all_prices c e q t)
  unfolding get_all_prices
  get_all_prices-Replied q =
      replied_by _ _ _ _ no_ticker_data q (ticker_with_pagination_query c q) _
        (ticker_with_pagination_query_iff c q) (λ x p. rw p)
        (λ rows p h.
          let (same, page) =
            get_all_by_ticker_lem e t q.ticker (pos_part q.limit) (pos_part q.offset) q.sorting law
              v in
          rw p (
            Rows-replied _ (IsPage t q.ticker none none (pos_part q.limit) q.sorting) _ _ rows h
              (page rows p)
              (page_of_listing t v q.ticker none none q.sorting e (pos_part q.limit)
                (pos_part q.offset) rows law (sym same ∙ p))))

  -- `GET /prices/by-date` ends in one of four ways: a query that breaks a rule is a validation error,
  -- whatever is stored; a failure of the database is raised as it is; the page asked for is the `limit`
  -- rows after the first `offset` of all the rows of the ticker within the bounds, sorted by their times,
  -- and the reply is 404 exactly if it is empty, and else its rows, which are the ticker's, within the
  -- bounds, in the order asked for and at most `limit`.
  pub get_prices_by_date-Replied :
      (q : PriceByDateQuery)
      → Replied
          (IsDateQuery c q)
          (get_by_ticker_and_date_range e q.base.ticker q.timestamp_from q.timestamp_to
            (pos_part q.base.limit)
            (pos_part q.base.offset)
            q.base.sorting
            t)
          (λ rows.
            listed_page t q.base.ticker q.timestamp_from q.timestamp_to
              (pos_part q.base.limit)
              (pos_part q.base.offset)
              q.base.sorting
            ≡ [])
          (Rows (
            IsListedPage t q.base.ticker q.timestamp_from q.timestamp_to
              (pos_part q.base.limit)
              (pos_part q.base.offset)
              q.base.sorting))
          no_query_data
          (get_prices_by_date c e q t)
  unfolding get_prices_by_date
  get_prices_by_date-Replied q =
      replied_by _ _ _ _ no_query_data q (price_by_date_query c q) _ (price_by_date_query_iff c q)
        (λ x p. rw p)
        (λ rows p h. rw p (
          Rows-replied _ _ _ _ rows h
            (get_by_ticker_and_date_range-IsPage e t q.base.ticker q.timestamp_from q.timestamp_to
              (pos_part q.base.limit) (pos_part q.base.offset) q.base.sorting rows law v p)
            (page_of_listing t v q.base.ticker q.timestamp_from q.timestamp_to q.base.sorting e
              (pos_part q.base.limit) (pos_part q.base.offset) rows law p)))

  -- `GET /prices/candles` ends in one of four ways: a query that breaks a rule is a validation error; a
  -- failure of the database is raised as it is; the reply is 404 exactly if the table has no row of
  -- the ticker in the range, bounds included, and else the candles of the rows that were read, which
  -- are the ticker's, in the range, at most 10 000 and in the order of their times.
  pub get_price_candles-Replied :
      (q : CandleQuery)
      → Replied
          (IsCandleQuery c q)
          (range_of e t q.ticker q.timestamp_from q.timestamp_to)
          (λ rows. NoRow t q.ticker q.timestamp_from q.timestamp_to)
          (λ rows candles.
            RangePage t q.ticker q.timestamp_from q.timestamp_to rows
            × AreCandles q.ticker q.interval rows candles)
          no_query_data
          (get_price_candles c e q t)
  unfolding get_price_candles
  get_price_candles-Replied q =
      replied_by _ _ _ _ no_query_data q (candle_query c q) _ (candle_query_iff c q)
        (λ x p. unfold get_candles in rw p)
        (λ rows p h.
          let (page, (candles, r, a)) =
            get_candles_lem e t q.ticker q.interval q.timestamp_from q.timestamp_to rows law v p in
          rw (r, p)
            (candles_replied _ _ q.ticker q.interval _ rows candles h
              (Reads-of q.ticker q.timestamp_from q.timestamp_to rows p) a))

  -- `GET /prices/summary` ends in one of four ways: a query that breaks a rule is a validation error; a
  -- failure of the database is raised as it is; the reply is 404 exactly if the table has no row of
  -- the ticker in the range, bounds included, and else the summary of the rows that were read, which
  -- are the ticker's, in the range, at most 10 000 and in the order of their times.
  pub get_price_summary-Replied :
      (q : PriceSummaryQuery)
      → Replied
          (IsSummaryQuery c q)
          (range_of e t q.ticker q.timestamp_from q.timestamp_to)
          (λ rows. NoRow t q.ticker q.timestamp_from q.timestamp_to)
          (λ rows s.
            RangePage t q.ticker q.timestamp_from q.timestamp_to rows
            × IsSummary q.ticker q.timestamp_from q.timestamp_to rows (some s))
          no_query_data
          (get_price_summary c e q t)
  unfolding get_price_summary
  get_price_summary-Replied q =
      replied_by _ _ _ _ no_query_data q (price_summary_query c q) _ (price_summary_query_iff c q)
        (λ x p. unfold Summary.get_price_summary in rw p)
        (λ rows p h.
          let (page, (out, r, a)) =
            get_price_summary_lem e t q.ticker q.timestamp_from q.timestamp_to rows law v p in
          rw (r, p)
            (IsSummary-replied _ _ q.ticker q.timestamp_from q.timestamp_to _ rows out h
              (Reads-of q.ticker q.timestamp_from q.timestamp_to rows p) a))

  -- `GET /prices/latest` ends in one of four ways: a ticker that is not supported is a validation error;
  -- a failure of the database is raised as it is; the reply is 404 exactly if no row is the ticker's, and
  -- else a newest row of it.
  pub get_latest_price-Replied :
      (ticker : String)
      → Replied
          (in_supported_ticker_set c ticker ≡ ok true)
          (get_latest_by_ticker e ticker t)
          (λ row. (row ≡ none) × IsLatest t ticker none)
          (Newest t ticker)
          no_ticker_data
          (get_latest_price c e ticker t)
  unfolding get_latest_price
  get_latest_price-Replied ticker =
      replied_by _ _ _ _ no_ticker_data ticker (validate_ticker c ticker) _
        (validate_ticker_iff c ticker) (λ x p. rw p)
        (λ row p h. rw p (IsLatest-replied _ t ticker row h (IsLatest-of e law t ticker row p)))
