-- ===== src/Client/Laws.antt =====
-- How the client's calls end: which exceptions they can raise, and when.
use deribit_price_collector.Prelude.{
  String, ◌≡◌, ap, inl, inr, true, false, Option, none, some, List, [], ◌∷◌, ◌∙◌, ◌≢◌, Bool-cases,
  rstrip,
}
use deribit_price_collector.Prelude.Int.{ℤ}
use deribit_price_collector.Exceptions.{
  Result, ok, err, unsupported_ticker, deribit_response, deribit_request, http_error,
  batch_permanent, batch_transient, >>=-eq-ok, Result-cases, value_error, other, ok_eq,
}
use deribit_price_collector.Config.{Config, in_supported_tickers_set}
use deribit_price_collector.Providers.{HistoryRange}
use deribit_price_collector.Client.{
  Http, handle_http, get_index_price_time, get_index_chart_data, parse_price, fetch, require,
  Response, base_url, present,
}
use deribit_price_collector.Client.Value.{
  Json, null, bool, int, float, str, arr, obj, get, floor_million,
}

-- `httpx.HTTPError` never leaves the client: it has become the transient `DeribitRequestError`.
pub handle_http-ne-http_error {ℓ} : {A : Type ℓ} (r : Result A) → handle_http r ≢ err http_error
handle_http-ne-http_error (ok a) h = cc
handle_http-ne-http_error (err http_error) h = cc
handle_http-ne-http_error (err (unsupported_ticker t)) h = cc
handle_http-ne-http_error (err deribit_response) h = cc
handle_http-ne-http_error (err deribit_request) h = cc
handle_http-ne-http_error (err (batch_permanent x)) h = cc
handle_http-ne-http_error (err (batch_transient x)) h = cc
handle_http-ne-http_error (err value_error) h = cc
handle_http-ne-http_error (err other) h = cc

abbrev pub price_request : String → List (String × String)
price_request ticker = ("index_name", ticker) ∷ []

require-present :
    (o : Option Json) (v : Json) → require (present o) ≡ ok v → (o ≡ some v) × (v ≢ null)
require-present none v h = cc
require-present (some null) v h = cc
require-present (some (bool b)) v h = (ap some (ok_eq h), λ e. cc)
require-present (some (int n)) v h = (ap some (ok_eq h), λ e. cc)
require-present (some (float x)) v h = (ap some (ok_eq h), λ e. cc)
require-present (some (str x)) v h = (ap some (ok_eq h), λ e. cc)
require-present (some (arr x)) v h = (ap some (ok_eq h), λ e. cc)
require-present (some (obj x)) v h = (ap some (ok_eq h), λ e. cc)

-- What `handle_http` lets return.
handle_http_ok {ℓ} : {A : Type ℓ} (r : Result A) {a : A} → handle_http r ≡ ok a → r ≡ ok a
handle_http_ok (ok a) h = h
handle_http_ok (err http_error) h = cc
handle_http_ok (err (unsupported_ticker t)) h = cc
handle_http_ok (err deribit_response) h = cc
handle_http_ok (err deribit_request) h = cc
handle_http_ok (err (batch_permanent x)) h = cc
handle_http_ok (err (batch_transient x)) h = cc
handle_http_ok (err value_error) h = cc
handle_http_ok (err other) h = cc

-- A field of an object that is there and is not `null`.
pub record HasField (key : String) (whole part : Json) : Type 0 where
  pub there : get key whole ≡ ok (some part)
  pub not_null : part ≢ null

has_field :
    (key : String) (whole part : Json) (o : Option Json)
    → get key whole ≡ ok o
    → require (present o) ≡ ok part
    → HasField key whole part
has_field key whole part o h k =
    let (p, q) = require-present o part k in record { there = h ∙ ap ok p; not_null = q }

-- An answer to `get_index_price` from which the price and the time are read.
pub record PriceAnswer (http : Http) (answer : Json) (price timestamp : ℤ) : Type 0 where
  pub result : Json
  pub value : Json
  pub us_in : Json
  pub has_result : HasField "result" answer result
  pub has_value : HasField "index_price" result value
  pub has_us_in : HasField "usIn" answer us_in
  pub timed : floor_million us_in ≡ ok timestamp
  pub priced : http.decimal value ≡ ok price

-- A request that was answered: what is sent, its status and its body.
pub record Answered (c : Config) (http : Http) (endpoint : String) (params : List (String × String))
    (answer : Json) : Type 0 where
  pub response : Response
  pub got :
      http.get (record {
        base_url = rstrip b'/' c.deribit_api_base_url;
        endpoint = endpoint;
        params = params;
      })
      ≡ ok response
  pub passed : response.raise_for_status ≡ ok tt
  pub body : response.json ≡ ok answer

fetch-Answered :
    (c : Config) (http : Http) (endpoint : String) (params : List (String × String)) (answer : Json)
    → fetch c http endpoint params ≡ ok answer
    → Answered c http endpoint params answer
unfolding fetch base_url
fetch-Answered c http endpoint params answer h =
    let (response, p, q) =
      >>=-eq-ok
        (http.get (record {
          base_url = rstrip b'/' c.deribit_api_base_url;
          endpoint = endpoint;
          params = params;
        }))
        _ h in
    elim (Result-cases response.raise_for_status) [
      | inl (u, r) ↦ record { response = response; got = p; passed = r; body = rw r at q }
      | inr (x, r) ↦ cc (rw r at q)
    ]

module _ (c : Config) (http : Http) (ticker : String) where
  -- An unsupported ticker is refused, whatever the server would say, by both calls.
  pub unsupported_refused :
      (range_name : HistoryRange)
      → in_supported_tickers_set c ticker ≡ false
      → (get_index_price_time c http ticker ≡ err (unsupported_ticker ticker))
        × (get_index_chart_data c http ticker range_name ≡ err (unsupported_ticker ticker))
  unfolding get_index_price_time get_index_chart_data
  unsupported_refused range_name h = (rw h, rw h)

  parse_price_ok :
      (answer : Json) (price timestamp : ℤ)
      → parse_price c http answer ≡ ok (price, timestamp)
      → PriceAnswer http answer price timestamp
  unfolding parse_price
  parse_price_ok answer price timestamp h =
      let (o₁, p₁, h₁) = >>=-eq-ok (get "result" answer) _ h in
      let (result, q₁, k₁) = >>=-eq-ok (require (present o₁)) _ h₁ in
      let (o₂, p₂, h₂) = >>=-eq-ok (get "index_price" result) _ k₁ in
      let (value, q₂, k₂) = >>=-eq-ok (require (present o₂)) _ h₂ in
      let (o₃, p₃, h₃) = >>=-eq-ok (get "usIn" answer) _ k₂ in
      let (us_in, q₃, k₃) = >>=-eq-ok (require (present o₃)) _ h₃ in
      let (seconds, p₄, h₄) = >>=-eq-ok (floor_million us_in) _ k₃ in
      let (units, p₅, h₅) = >>=-eq-ok (http.decimal value) _ h₄ in
      let same : (units, seconds) ≡ (price, timestamp) = ok_eq h₅ in
      record {
        result = result;
        value = value;
        us_in = us_in;
        has_result = has_field "result" answer result o₁ p₁ q₁;
        has_value = has_field "index_price" result value o₂ p₂ q₂;
        has_us_in = has_field "usIn" answer us_in o₃ p₃ q₃;
        timed = p₄ ∙ ap (λ (z : ℤ × ℤ). ok z.1) same;
        priced = p₅ ∙ ap (λ (z : ℤ × ℤ). ok z.0) same;
      }

  -- A price is returned only for a supported ticker, from a response to the request for it on the
  -- configured server: its status passed, its body has the price and the time, and the time is `usIn`
  -- in whole seconds.
  pub get_index_price_time_ok :
      (price timestamp : ℤ)
      → get_index_price_time c http ticker ≡ ok (price, timestamp)
      → (in_supported_tickers_set c ticker ≡ true)
        × ((answer : Json) × Answered c http "/public/get_index_price" (price_request ticker) answer
            × PriceAnswer http answer price timestamp)
  unfolding get_index_price_time
  get_index_price_time_ok price timestamp h =
      elim (Bool-cases (in_supported_tickers_set c ticker)) [
        | inl e ↦
            let k = handle_http_ok _ (rw e at h) in
            let (answer, p, q) =
              >>=-eq-ok (fetch c http "/public/get_index_price" (price_request ticker)) _ k in
            (
              e,
              (
                answer,
                fetch-Answered c http "/public/get_index_price" (price_request ticker) answer p,
                parse_price_ok answer price timestamp q,
              ),
            )
        | inr e ↦ cc (rw e at h)
      ]
