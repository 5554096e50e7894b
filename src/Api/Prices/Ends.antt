-- ===== src/Api/Prices/Ends.antt =====
-- The ways in which a route under /prices of app/api/endpoints.py may end.
use deribit_price_collector.Prelude.{
  String, ◌≡◌, ◌≢◌, refl, sym, ◌∙◌, ◌↔◌, inl, inr, Option, none, some, List, [], ◌∷◌, map,
}
use deribit_price_collector.Prelude.Int.{ℤ}
use deribit_price_collector.Exceptions.{Exn, Result, ok, err, Result-cases}
use deribit_price_collector.Table.{Price, Table}
use deribit_price_collector.Repository.Latest.{IsLatest}
use deribit_price_collector.Schemas.{CandleInterval}
use deribit_price_collector.Services.Candles.{CandleResponse}
use deribit_price_collector.Services.Candles.Laws.{AreCandles}
use deribit_price_collector.Services.Summary.{PriceSummaryResponse}
use deribit_price_collector.Services.Summary.Laws.{IsSummary, IsSummary}
use deribit_price_collector.Api.Replies.{
  Reply, answer, raised, http_exception, validation_error, exception, PriceResponse, model_validate,
  depends, or_404, found_or_404, ◌>>=◌,
}
use deribit_price_collector.Api.Prices.{no_query_data, no_ticker_data}

-- How a route may end whose query is accepted under a condition and asks the database for rows: a 404 is
-- sent for those that are `Missing`, and only for those, and what it answers is `Found` for the others.
pub data Replied {A B : Type 0} (Accepted : Type 0) (asked : Result A) (Missing : A → Type 0)
    (Found : A → B → Type 0) (detail : String) : Reply B → Type 0 where
  refused : ¬ Accepted → Replied Accepted asked Missing Found detail (raised validation_error)
  failed :
      (x : Exn)
      → Accepted
      → asked ≡ err x
      → Replied Accepted asked Missing Found detail (raised (exception x))
  missing :
      (rows : A)
      → Accepted
      → asked ≡ ok rows
      → Missing rows
      → Replied Accepted asked Missing Found detail (raised (http_exception 404 detail))
  found :
      (rows : A) (value : B)
      → Accepted
      → asked ≡ ok rows
      → ¬ Missing rows
      → Found rows value
      → Replied Accepted asked Missing Found detail (answer value)

-- A route in two steps: the checks of the query, and what follows them for a query that they accept.
pub replied_by :
    {A B Q : Type 0} (Accepted : Type 0) (asked : Result A) (Missing : A → Type 0)
    (Found : A → B → Type 0) (detail : String) (q : Q) (checks : Result Q) (rest : Q → Reply B)
    → ((out : Q) → (checks ≡ ok out) ↔ (Accepted × (out ≡ q)))
    → ((x : Exn) → asked ≡ err x → rest q ≡ raised (exception x))
    → ((rows : A)
        → asked ≡ ok rows
        → Accepted
        → Replied Accepted asked Missing Found detail (rest q))
    → Replied Accepted asked Missing Found detail (depends checks >>= rest)
replied_by Accepted asked Missing Found detail q checks rest iff fails reads =
    elim (Result-cases checks) [
      | inr (x, e) ↦ rw e (refused (λ h. cc (sym e ∙ (iff q).1 (h, refl))))
      | inl (out, e) ↦
          let (h, same) = (iff out).0 e in
          rw (e, same)
            (elim (Result-cases asked) [
              | inl (rows, p) ↦ reads rows p h
              | inr (x, p) ↦ rw (fails x p) (failed x h p)
            ])
    ]

-- The answer for some rows.
abbrev pub Rows : (List Price → Type 0) → List Price → List PriceResponse → Type 0
Rows Page rows value = Page rows × (value ≡ map model_validate rows)

cons_ne : (r : Price) (rows : List Price) → r ∷ rows ≢ []
cons_ne r rows = λ e. cc

pub Rows-replied :
    (Accepted : Type 0) (Page : List Price → Type 0) (detail : String) (listed rows : List Price)
    → Accepted
    → Page rows
    → rows ≡ listed
    → Replied Accepted
        (ok rows)
        (λ r. listed ≡ [])
        (Rows (λ r. Page r × (r ≡ listed)))
        detail
        (do some_rows ← or_404 detail rows; answer (map model_validate some_rows))
Rows-replied Accepted Page detail listed [] h a e = missing [] h refl (sym e)
Rows-replied Accepted Page detail listed (r ∷ rows) h a e =
    found (r ∷ rows) (map model_validate (r ∷ rows)) h refl (λ z. cons_ne r rows (e ∙ z))
      ((a, e), refl)

-- The rows of a range, which are none exactly if the range is empty.
pub record Reads (Empty : Type 0) (Page : List Price → Type 0) (rows : List Price) : Type 0 where
  pub page : Page rows
  pub none_left : rows ≡ [] → Empty
  pub some_left : rows ≢ [] → ¬ Empty

pub candles_replied :
    (Accepted Empty : Type 0) (ticker : String) (i : CandleInterval) (Page : List Price → Type 0)
    (rows : List Price) (candles : List CandleResponse)
    → Accepted
    → Reads Empty Page rows
    → AreCandles ticker i rows candles
    → Replied Accepted
        (ok rows)
        (λ r. Empty)
        (λ r candles'. Page r × AreCandles ticker i r candles')
        no_query_data
        (or_404 no_query_data candles)
candles_replied Accepted Empty ticker i Page [] [] h p a = missing [] h refl (p.none_left refl)
candles_replied Accepted Empty ticker i Page (r ∷ rows) [] h p a =
    let (k, m, e) = a.complete r (inl refl) in absurd m
candles_replied Accepted Empty ticker i Page [] (k ∷ candles) h p a =
    let c = a.candle.0 in let e = c.covered in cc
candles_replied Accepted Empty ticker i Page (r ∷ rows) (k ∷ candles) h p a =
    found (r ∷ rows) (k ∷ candles) h refl (p.some_left (λ e. cc)) (p.page, a)

pub IsSummary-replied :
    (Accepted Empty : Type 0) (ticker : String) (lo hi : ℤ) (Page : List Price → Type 0)
    (rows : List Price) (out : Option PriceSummaryResponse)
    → Accepted
    → Reads Empty Page rows
    → IsSummary ticker lo hi rows out
    → Replied Accepted
        (ok rows)
        (λ r. Empty)
        (λ r s. Page r × IsSummary ticker lo hi r (some s))
        no_query_data
        (found_or_404 no_query_data out)
IsSummary-replied Accepted Empty ticker lo hi Page [] none h p a =
    missing [] h refl (p.none_left refl)
IsSummary-replied Accepted Empty ticker lo hi Page [] (some s) h p a = absurd a
IsSummary-replied Accepted Empty ticker lo hi Page (r ∷ rows) none h p a = absurd a
IsSummary-replied Accepted Empty ticker lo hi Page (r ∷ rows) (some s) h p a =
    found (r ∷ rows) s h refl (p.some_left (λ e. cc)) (p.page, a)

-- The answer for a newest row.
abbrev pub Newest : Table → String → Option Price → PriceResponse → Type 0
Newest t ticker none value = ⊥
Newest t ticker (some r) value = IsLatest t ticker (some r) × (value ≡ model_validate r)

some_ne : (r : Price) → some r ≢ none
some_ne r = λ e. cc

pub IsLatest-replied :
    (Accepted : Type 0) (t : Table) (ticker : String) (row : Option Price)
    → Accepted
    → IsLatest t ticker row
    → Replied Accepted
        (ok row)
        (λ r. (r ≡ none) × IsLatest t ticker none)
        (Newest t ticker)
        no_ticker_data
        (do one ← found_or_404 no_ticker_data row; answer (model_validate one))
IsLatest-replied Accepted t ticker none h a = missing none h refl (refl, a)
IsLatest-replied Accepted t ticker (some r) h a =
    found (some r) (model_validate r) h refl (λ e. some_ne r e.0) (a, refl)
