-- ===== src/App/Routes/Ends.antt =====
-- What the response to a request has to be, for each route.
use deribit_price_collector.Prelude.{
  String, ◌≡◌, refl, sym, ap, ◌⊎◌, inl, true, none, some, [], map,
}
use deribit_price_collector.Prelude.Int.{ℤ, pos_part}
use deribit_price_collector.Exceptions.{Exn, Result, ok, err}
use deribit_price_collector.Providers.{
  in_supported_ticker_set, list_supported_instruments, list_provider_metadata,
  get_active_provider_metadata, ProviderInstrument,
}
use deribit_price_collector.Table.{Table}
use deribit_price_collector.Repository.{
  get_all_by_ticker, get_latest_by_ticker, get_by_ticker_and_date_range,
}
use deribit_price_collector.Repository.Aggregates.{
  Reports, get_total_prices_count, get_counts_by_ticker, get_latest_prices_by_ticker,
}
use deribit_price_collector.Repository.Latest.{IsLatest}
use deribit_price_collector.Repository.Paging.{NoRow, listed_page, IsListedPage}
use deribit_price_collector.Schemas.Laws.{IsDateQuery, IsCandleQuery}
use deribit_price_collector.Schemas.Queries.{IsListQuery, IsSummaryQuery}
use deribit_price_collector.Services.Candles.Laws.{AreCandles}
use deribit_price_collector.Services.Summary.Laws.{IsSummary}
use deribit_price_collector.Metrics.{RuntimeMetrics, Response, on_request_start}
use deribit_price_collector.Metrics.Prometheus.{to_prometheus, business_snapshot_to_prometheus}
use Prim.Native.String.{◌++◌}
use deribit_price_collector.Metrics.Snapshot.{BusinessSnapshot, RuntimeSnapshot}
use deribit_price_collector.Api.Metrics.{MetricsReply}
use deribit_price_collector.Api.Replies.{Reply, Raised, answer, raised, exception, call, ◌>>=◌}
use deribit_price_collector.Api.Registry.{provider_response}
use deribit_price_collector.Api.Prices.Ends as PricesEnds
use deribit_price_collector.Api.Prices.Ends.{Replied, Rows, Newest}
use deribit_price_collector.Api.Prices.Laws.{range_of, RangePage}
use deribit_price_collector.Api.Metrics.Laws.{
  replied, IsBusiness, IsRuntime, MetricsEnd, get_runtime_metrics-MetricsEnd,
}
use deribit_price_collector.Api.Metrics.Laws as MetricsLaws
use deribit_price_collector.App.Errors.{ErrorResponse}
use deribit_price_collector.App.Laws.{status_for, BodyFor}
use deribit_price_collector.App.Routes.{
  Request, Payload, Server, Moment, path_of, wrapped, status_text, metrics_reply, price_list, price,
  candle_list, summary, plain_text, tickers, instrument_list, provider_list, provider,
}

-- A response to a request that is accepted under a condition and asks for something: what is answered is
-- `Found` for what was given, and a 404 is sent exactly if that is `Missing`.
pub data Served {A B P E : Type 0} (Accepted : Type 0) (asked : Result A) (Missing : A → Type 0)
    (Found : A → B → Type 0) (wrap : B → P) (r : Response (P ⊎ E)) : Type 0 where
  refused : ¬ Accepted → r.status_code ≡ 422 → Served Accepted asked Missing Found wrap r
  failed :
      (x : Exn)
      → Accepted
      → asked ≡ err x
      → r.status_code ≡ 500
      → Served Accepted asked Missing Found wrap r
  missing :
      (a : A)
      → Accepted
      → asked ≡ ok a
      → Missing a
      → r.status_code ≡ 404
      → Served Accepted asked Missing Found wrap r
  found :
      (a : A) (b : B)
      → Accepted
      → asked ≡ ok a
      → ¬ Missing a
      → Found a b
      → r.status_code ≡ 200
      → r.body ≡ inl (wrap b)
      → Served Accepted asked Missing Found wrap r

pub Served-of :
    {A B P : Type 0} (Accepted : Type 0) (asked : Result A) (Missing : A → Type 0)
    (Found : A → B → Type 0) (detail : String) (wrap : B → P) (reply : Reply B) (id : String)
    (r : Response (P ⊎ ErrorResponse))
    → Replied Accepted asked Missing Found detail reply
    → r.status_code ≡ status_for (wrapped wrap reply)
    → BodyFor id (wrapped wrap reply) r.body
    → Served Accepted asked Missing Found wrap r
Served-of Accepted asked Missing Found detail wrap _ id r (PricesEnds.refused h) p b = refused h p
Served-of Accepted asked Missing Found detail wrap _ id r (PricesEnds.failed x h q) p b =
    failed x h q p
Served-of Accepted asked Missing Found detail wrap _ id r (PricesEnds.missing a h q n) p b =
    missing a h q n p
Served-of Accepted asked Missing Found detail wrap _ id r (PricesEnds.found a v h q n f) p b =
    found a v h q n f p b

-- A route that asks for something and answers with a function of it.
pub called :
    {A B : Type 0} (asked : Result A) (f : A → B)
    → Replied Unit asked (λ a. ⊥) (λ a b. b ≡ f a) "" (do a ← call asked; answer (f a))
called (ok a) f = PricesEnds.found a (f a) tt refl (λ z. z) refl
called (err x) f = PricesEnds.failed x tt refl

pub through :
    {A B P : Type 0} (f : B → P) (g : A → B) (x : Reply A)
    → wrapped f (do a ← x; answer (g a)) ≡ wrapped (λ a. f (g a)) x
through f g (answer a) = refl
through f g (raised x) = refl

-- What the snapshot of the stored prices is, if there is one.
abbrev pub BusinessEnd : Reports → Table → ℤ → Reply BusinessSnapshot → Type 0
BusinessEnd d t now (answer b) = IsBusiness t now b
BusinessEnd d t now (raised x) =
    (y : Exn) × (x ≡ exception y)
    × ((get_total_prices_count d t ≡ err y)
        ⊎ (get_counts_by_ticker d t ≡ err y)
        ⊎ (get_latest_prices_by_ticker d t ≡ err y))

abbrev business_of : {F : Type 0} → BusinessSnapshot → Reply (MetricsReply F) → BusinessSnapshot
business_of b (answer a) = a.business
business_of b (raised x) = b

raised_eq : {A : Type 0} (x y : Raised) → ◌≡◌ {A = Reply A} (raised x) (raised y) → x ≡ y
raised_eq x y h = cc

pub BusinessEnd-of :
    {F : Type 0} (d : Reports) (t : Table) (now : ℤ) (Runtime : RuntimeSnapshot F → Type 0)
    (runtime : RuntimeSnapshot F) (x : Reply BusinessSnapshot)
    → MetricsEnd d t now Runtime (do b ← x; answer (record { runtime = runtime; business = b }))
    → BusinessEnd d t now x
BusinessEnd-of {F} d t now Runtime runtime x e = go x _ refl e
  where
    go :
        (x : Reply BusinessSnapshot) (reply : Reply (MetricsReply F))
        → reply ≡ (do b ← x; answer (record { runtime = runtime; business = b }))
        → MetricsEnd d t now Runtime reply
        → BusinessEnd d t now x
    go (answer b) _ h (MetricsLaws.failed y z) = cc
    go (answer b) _ h (MetricsLaws.replied b' w z) = rw (ap (business_of b) (sym h)) z
    go (raised y) _ h (MetricsLaws.failed z w) = (z, raised_eq y _ (sym h), w)
    go (raised y) _ h (MetricsLaws.replied b' w z) = cc

-- A response that is always the same answer.
abbrev pub Sent : {P E : Type 0} → P → Response (P ⊎ E) → Type 0
Sent payload r = (r.status_code ≡ 200) × (r.body ≡ inl payload)

-- A response on the stored prices: a failure of one of the three queries, or an answer for a snapshot that
-- is right.
abbrev pub Reported :
    {P E : Type 0} → Reports → Table → ℤ → (BusinessSnapshot → P) → Response (P ⊎ E) → Type 0
Reported d t now wrap r =
    (((x : Exn) × ((get_total_prices_count d t ≡ err x)
          ⊎ (get_counts_by_ticker d t ≡ err x)
          ⊎ (get_latest_prices_by_ticker d t ≡ err x)))
      × (r.status_code ≡ 500))
    ⊎ ((b : BusinessSnapshot) × IsBusiness t now b
        × (r.status_code ≡ 200)
        × (r.body ≡ inl (wrap b)))

module _ {F : Type 0} (s : Server F) (k : Moment F) (t : Table) (m : RuntimeMetrics F) where
  -- What the response to a request has to be, for each route.
  abbrev pub End : Request → Response (Payload F ⊎ ErrorResponse) → Type 0
  End (Request.prices q) =
      Served (IsListQuery s.config q)
        (get_all_by_ticker s.engine q.ticker (pos_part q.limit) (pos_part q.offset) q.sorting t)
        (λ rows.
          listed_page t q.ticker none none (pos_part q.limit) (pos_part q.offset) q.sorting ≡ [])
        (Rows (IsListedPage t q.ticker none none (pos_part q.limit) (pos_part q.offset) q.sorting))
        price_list
  End (Request.prices_latest ticker) =
      Served (in_supported_ticker_set s.config ticker ≡ ok true)
        (get_latest_by_ticker s.engine ticker t) (λ row. (row ≡ none) × IsLatest t ticker none)
        (Newest t ticker) price
  End (Request.prices_by_date q) =
      Served (IsDateQuery s.config q)
        (get_by_ticker_and_date_range s.engine q.base.ticker q.timestamp_from q.timestamp_to
          (pos_part q.base.limit) (pos_part q.base.offset) q.base.sorting t)
        (λ rows.
          listed_page t q.base.ticker q.timestamp_from q.timestamp_to (pos_part q.base.limit)
            (pos_part q.base.offset) q.base.sorting
          ≡ [])
        (Rows (
          IsListedPage t q.base.ticker q.timestamp_from q.timestamp_to (pos_part q.base.limit)
            (pos_part q.base.offset) q.base.sorting))
        price_list
  End (Request.prices_candles q) =
      Served (IsCandleQuery s.config q)
        (range_of s.engine t q.ticker q.timestamp_from q.timestamp_to)
        (λ rows. NoRow t q.ticker q.timestamp_from q.timestamp_to)
        (λ rows candles.
          RangePage t q.ticker q.timestamp_from q.timestamp_to rows
          × AreCandles q.ticker q.interval rows candles)
        candle_list
  End (Request.prices_summary q) =
      Served (IsSummaryQuery s.config q)
        (range_of s.engine t q.ticker q.timestamp_from q.timestamp_to)
        (λ rows. NoRow t q.ticker q.timestamp_from q.timestamp_to)
        (λ rows out.
          RangePage t q.ticker q.timestamp_from q.timestamp_to rows
          × IsSummary q.ticker q.timestamp_from q.timestamp_to rows (some out))
        summary
  End Request.healthz = Sent (status_text "ok")
  End Request.readyz = Served Unit k.ping (λ u. ⊥) (λ u text. text ≡ "ready") status_text
  End Request.metrics = λ r.
      (runtime : RuntimeSnapshot F) × IsRuntime s.zero_ms s.divide_by s.round_2
        (on_request_start s.zero_ms s.add (path_of Request.metrics) m) runtime
      × Reported s.reports t k.now (λ b. metrics_reply (record { runtime = runtime; business = b }))
          r
  End Request.metrics_prometheus = Reported s.reports t k.now (λ b. plain_text (
      to_prometheus s.fixed_2
        (on_request_start s.zero_ms s.add (path_of Request.metrics_prometheus) m)
      ++ business_snapshot_to_prometheus b))
  End Request.instruments = Sent (tickers s.config.tickers)
  End Request.instruments_details =
      Served Unit (list_supported_instruments s.config) (λ items. ⊥)
        (λ items out.
          out
          ≡ map
              (λ (item : ProviderInstrument). record {
                ticker = item.ticker;
                provider = item.provider;
              })
              items)
        instrument_list
  End Request.providers =
      Sent (provider_list (map provider_response (list_provider_metadata s.config)))
  End Request.providers_active =
      Served Unit (get_active_provider_metadata s.config) (λ item. ⊥)
        (λ item out. out ≡ provider_response item) provider
