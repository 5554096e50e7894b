-- ===== src/Schemas/Queries.antt =====
-- Which plain queries for prices and which queries for a summary app/schemas.py accepts.
use deribit_price_collector.Prelude.{◌≡◌, sym, ap, ◌∙◌, ◌↔◌, true, some, arith}
use deribit_price_collector.Prelude.Int.{pos, ◌≤ℤ◌}
use deribit_price_collector.Exceptions.{ok, ok_eq, >>=-eq-ok}
use deribit_price_collector.Config.{Config}
use deribit_price_collector.Providers.{in_supported_ticker_set}
use deribit_price_collector.Schemas.{
  TickerWithPaginationQuery, PriceSummaryQuery, between, validate_ticker,
  ticker_with_pagination_query, price_summary_query,
}
use deribit_price_collector.Schemas.Laws.{
  IsTime, check_then, range_then, pagination_ok, pagination_of, time_between, validate_range_of,
  validate_ticker_ok,
}

-- What a plain query has to be.
pub record IsListQuery (c : Config) (q : TickerWithPaginationQuery) : Type 0 where
  pub limited : (pos 1 ≤ℤ q.limit) × (q.limit ≤ℤ pos 1000)
  pub shifted : pos 0 ≤ℤ q.offset
  pub supported : in_supported_ticker_set c q.ticker ≡ ok true

-- A plain query is accepted, unchanged, exactly if its ticker is supported, its limit is from 1 to 1000
-- and its offset is not negative.
pub ticker_with_pagination_query_iff :
    (c : Config) (q out : TickerWithPaginationQuery)
    → (ticker_with_pagination_query c q ≡ ok out) ↔ (IsListQuery c q × (out ≡ q))
ticker_with_pagination_query_iff c q out = (
  λ h.
      let (a, b, supported, same) = pagination_ok c q out h in
      (
        record { limited = ground (arith, a); shifted = ground (arith, b); supported = supported },
        same,
      ),
  λ h. pagination_of c q h.0.limited h.0.shifted h.0.supported ∙ ap ok (sym h.1),
)

-- What a query for a summary has to be.
pub record IsSummaryQuery (c : Config) (q : PriceSummaryQuery) : Type 0 where
  pub supported : in_supported_ticker_set c q.ticker ≡ ok true
  pub from : IsTime q.timestamp_from
  pub to : IsTime q.timestamp_to
  pub ordered : q.timestamp_from ≤ℤ q.timestamp_to

IsSummaryQuery-of :
    (c : Config) (q out : PriceSummaryQuery)
    → price_summary_query c q ≡ ok out
    → IsSummaryQuery c q × (out ≡ q)
unfolding price_summary_query
IsSummaryQuery-of c q out h =
    let (ticker, p, h₁) = >>=-eq-ok (validate_ticker c q.ticker) _ h in
    let (a, h₂) = check_then (between (pos 0) (pos 2_500_000_000) q.timestamp_from) _ h₁ in
    let (b, h₃) = check_then (between (pos 0) (pos 2_500_000_000) q.timestamp_to) _ h₂ in
    let (r, h₄) = range_then (some q.timestamp_from) (some q.timestamp_to) _ h₃ in
    let (supported, same) = validate_ticker_ok c q.ticker ticker p in
    (
      record {
        supported = supported;
        from = ground (arith, a);
        to = ground (arith, b);
        ordered = r;
      },
      sym (ok_eq h₄) ∙ ap (λ t. record q { ticker = t }) same,
    )

summary_query_of :
    (c : Config) (q : PriceSummaryQuery) → IsSummaryQuery c q → price_summary_query c q ≡ ok q
unfolding price_summary_query validate_ticker
summary_query_of c q h = rw (
  h.supported,
  time_between q.timestamp_from h.from,
  time_between q.timestamp_to h.to,
  validate_range_of (some q.timestamp_from) (some q.timestamp_to) h.ordered,
)

-- A query for a summary is accepted, unchanged, exactly if its ticker is supported and its two bounds
-- are from 0 to 2 500 000 000 and in order.
pub price_summary_query_iff :
    (c : Config) (q out : PriceSummaryQuery)
    → (price_summary_query c q ≡ ok out) ↔ (IsSummaryQuery c q × (out ≡ q))
price_summary_query_iff c q out =
    (IsSummaryQuery-of c q out, λ h. summary_query_of c q h.0 ∙ ap ok (sym h.1))
