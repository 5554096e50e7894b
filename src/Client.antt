-- ===== src/Client.antt =====
-- collector/client.py: `SyncDeribitClient`. The HTTP library is a parameter, `Http`: what a request,
-- `raise_for_status` and `response.json` give. Logging is left out.
pub mod Value
pub mod Laws
pub mod Chart
use deribit_price_collector.Prelude.{
  String, ◌≡◌, Bool, true, false, Option, none, some, List, [], ◌∷◌, not, rstrip, if◌then◌else◌,
  ◌++◌,
}
use deribit_price_collector.Prelude.Int.{ℤ, floor_div}
use deribit_price_collector.Exceptions.{
  Result, ok, err, unsupported_ticker, deribit_response, deribit_request, http_error, ◌>>=◌, ◌>>◌,
}
use deribit_price_collector.Config.{Config, in_supported_tickers_set}
use deribit_price_collector.Providers.{HistoryRange, range_value}
use deribit_price_collector.Client.Value.{
  Json, Items, null, arr, nil, cons, get, floor_million, truncate, is_number,
}

-- What the client is given by httpx for a response.
pub record Response : Type 0 where
  pub raise_for_status : Result (Unit {0})
  pub json : Result Json

-- client.get(url, params=params); the endpoint is what follows the base URL.
pub record Request : Type 0 where
  pub base_url : String
  pub endpoint : String
  pub params : List (String × String)

pub record Http : Type 0 where
  pub get : Request → Result Response
  -- Decimal(str(price)), in units of the column's 10⁻⁸: it raises if the text is no number
  pub decimal : Json → Result ℤ

-- SyncDeribitClient.BASE_URL
unfoldable pub base_url : Config → String
base_url c = rstrip b'/' c.deribit_api_base_url

-- A JSON value that is not `null`.
abbrev pub present : Option Json → Option Json
present none = none
present (some null) = none
present (some v) = some v

-- if value is None: raise DeribitResponseError(...)
abbrev pub require : Option Json → Result Json
require none = err deribit_response
require (some v) = ok v

-- `except httpx.HTTPError` becomes `DeribitRequestError`; `DeribitResponseError` is raised again,
-- and anything else passes.
abbrev pub handle_http {ℓ} : {A : Type ℓ} → Result A → Result A
handle_http (err http_error) = err deribit_request
handle_http r = r

module _ (c : Config) (http : Http) where
  -- if ticker not in config.supported_tickers_set: raise UnsupportedTickerError(...)
  abbrev pub check_ticker : String → Result (Unit {0})
  check_ticker ticker =
      if in_supported_tickers_set c ticker then ok tt else err (unsupported_ticker ticker)

  -- The request, the check of its status, and its body.
  unfoldable pub fetch : String → List (String × String) → Result Json
  fetch endpoint params = do
    response ← http.get (record { base_url = base_url c; endpoint = endpoint; params = params })
    response.raise_for_status
    response.json

  -- The fields of the answer to `get_index_price`.
  unfoldable pub parse_price : Json → Result (ℤ × ℤ)
  parse_price answer = do
    result ← require (present (← get "result" answer))
    price ← require (present (← get "index_price" result))
    us_in ← require (present (← get "usIn" answer))
    timestamp ← floor_million us_in
    price_decimal ← http.decimal price
    ok (price_decimal, timestamp)

  -- SyncDeribitClient.get_index_price_time
  unfoldable pub get_index_price_time : String → Result (ℤ × ℤ)
  get_index_price_time ticker = do
    check_ticker ticker
    handle_http (do
      answer ← fetch "/public/get_index_price" (("index_name", ticker) ∷ [])
      parse_price answer)

  -- if not isinstance(timestamp_ms, int | float): raise DeribitResponseError(...)
  abbrev pub parse_pair : Json → Json → Result (ℤ × ℤ)
  parse_pair timestamp_ms price =
      if is_number timestamp_ms
      then (do
        price_decimal ← http.decimal price
        timestamp ← truncate timestamp_ms
        ok (price_decimal, floor_div timestamp 1000))
      else err deribit_response

  -- One item of the chart: a list of two.
  unfoldable pub parse_point : Json → Result (ℤ × ℤ)
  parse_point (arr (cons timestamp_ms (cons price nil))) = parse_pair timestamp_ms price
  parse_point _ = err deribit_response

  -- The loop over the items: the first bad one raises.
  unfoldable pub parse_points : Items → Result (List (ℤ × ℤ))
  parse_points nil = ok []
  parse_points (cons item rest) = do
    point ← parse_point item
    points ← parse_points rest
    ok (point ∷ points)

  -- if result is None or not isinstance(result, list): raise DeribitResponseError(...)
  unfoldable pub require_list : Option Json → Result Items
  require_list (some (arr items)) = ok items
  require_list _ = err deribit_response

  -- SyncDeribitClient.get_index_chart_data
  unfoldable pub get_index_chart_data : String → HistoryRange → Result (List (ℤ × ℤ))
  get_index_chart_data ticker range_name = do
    check_ticker ticker
    handle_http (do
      answer ←
          fetch "/public/get_index_chart_data"
            (("index_name", ticker) ∷ ("range", range_value range_name) ∷ [])
      items ← require_list (← get "result" answer)
      parse_points items)
