-- ===== src/System/Given.antt =====
-- Where stored prices come from: the points that a task puts into the table are the client's.
use deribit_price_collector.Prelude.{
  String, ◌≡◌, refl, sym, ◌∙◌, ◌⊎◌, inl, inr, true, false, Bool-cases, List, [], ◌∷◌,
}
use deribit_price_collector.Prelude.Int.{ℤ}
use deribit_price_collector.Prelude.Order.{Member}
use deribit_price_collector.Exceptions.{Result, ok, err}
use deribit_price_collector.Config.{Config, in_supported_tickers_set}
use deribit_price_collector.Providers.{HistoryRange}
use deribit_price_collector.Client.{Http, get_index_price_time, get_index_chart_data}
use deribit_price_collector.Client.Laws.{unsupported_refused}
use deribit_price_collector.Tasks.Fetch.Loop.{Point, quotes, quote_of}
use deribit_price_collector.Tasks.Backfill.Loop.{history, chart_of}
use deribit_price_collector.Tasks.Points.{Member-append, points_of-Member}

-- The client gave this price of the ticker at that time, as a quote or as a point of a chart.
abbrev pub Gave : Config → Http → String → ℤ → ℤ → Type 0
Gave c http ticker price timestamp =
    (get_index_price_time c http ticker ≡ ok (price, timestamp))
    ⊎ ((r : HistoryRange) × (points : List (ℤ × ℤ)) × (get_index_chart_data c http ticker r
          ≡ ok points)
        × Member (price, timestamp) points)

-- The client gives prices for supported tickers only.
pub Gave-supported :
    (c : Config) (http : Http) (ticker : String) (price timestamp : ℤ)
    → Gave c http ticker price timestamp
    → in_supported_tickers_set c ticker ≡ true
Gave-supported c http ticker price timestamp g =
    elim (Bool-cases (in_supported_tickers_set c ticker)) [
      | inl e ↦ e
      | inr e ↦ absurd (refused g e)
    ]
  where
    refused : Gave c http ticker price timestamp → in_supported_tickers_set c ticker ≡ false → ⊥
    refused (inl p) e = cc (p, (unsupported_refused c http ticker HistoryRange.all e).0)
    refused (inr (r, points, p, m)) e = cc (p, (unsupported_refused c http ticker r e).1)

quote-Gave :
    (c : Config) (http : Http) (a ticker : String) (price timestamp : ℤ) (r : Result (ℤ × ℤ))
    → get_index_price_time c http a ≡ r
    → Member (ticker, price, timestamp) (quote_of a r)
    → Gave c http ticker price timestamp
quote-Gave c http a ticker price timestamp (ok (p, b)) h (inl e) =
    let q : ◌≡◌ {A = Point} (ticker, price, timestamp) (a, p, b) = e in
    let f : ticker ≡ a = λ i. (q i).0 in inl (rw f (h ∙ (λ i. ok ((sym q i).1, (sym q i).2))))
quote-Gave c http a ticker price timestamp (ok (p, b)) h (inr m) = absurd m
quote-Gave c http a ticker price timestamp (err x) h m = absurd m

pub quotes-Gave :
    (c : Config) (http : Http) (tickers : List String) (ticker : String) (price timestamp : ℤ)
    → Member (ticker, price, timestamp) (quotes c http tickers)
    → Gave c http ticker price timestamp
quotes-Gave c http [] ticker price timestamp m = absurd m
quotes-Gave c http (a ∷ tickers) ticker price timestamp m =
    elim (Member-append (ticker, price, timestamp) (quote_of a (get_index_price_time c http a))
      (quotes c http tickers) m) [
        | inl n ↦ quote-Gave c http a ticker price timestamp (get_index_price_time c http a) refl n
        | inr n ↦ quotes-Gave c http tickers ticker price timestamp n
      ]

chart-Gave :
    (c : Config) (http : Http) (r : HistoryRange) (a ticker : String) (price timestamp : ℤ)
    (chart : Result (List (ℤ × ℤ)))
    → get_index_chart_data c http a r ≡ chart
    → Member (ticker, price, timestamp) (chart_of a chart)
    → Gave c http ticker price timestamp
chart-Gave c http r a ticker price timestamp (ok points) h m =
    let (e, n) = points_of-Member a ticker price timestamp points m in inr (r, points, rw e h, n)
chart-Gave c http r a ticker price timestamp (err x) h m = absurd m

pub history-Gave :
    (c : Config) (http : Http) (r : HistoryRange) (tickers : List String) (ticker : String)
    (price timestamp : ℤ)
    → Member (ticker, price, timestamp) (history c http r tickers)
    → Gave c http ticker price timestamp
history-Gave c http r [] ticker price timestamp m = absurd m
history-Gave c http r (a ∷ tickers) ticker price timestamp m =
    elim (Member-append (ticker, price, timestamp) (chart_of a (get_index_chart_data c http a r))
      (history c http r tickers) m) [
        | inl n ↦
            chart-Gave c http r a ticker price timestamp (get_index_chart_data c http a r) refl n
        | inr n ↦ history-Gave c http r tickers ticker price timestamp n
      ]
