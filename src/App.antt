-- ===== src/App.antt =====
-- app/main.py: the middleware around the routes and the handlers of what they raise, with
-- app/core/error_responses.py. A request's path through them is Starlette's: the handlers for
-- `HTTPException` and for validation errors stand inside the middleware, the one for all other
-- exceptions outside of it.
pub mod Errors
pub mod Lifespan
pub mod Laws
pub mod Routes
pub mod Database
pub mod Context
use deribit_price_collector.Prelude.{ℕ, String, ◌⊎◌, inl, inr, Option, none, some, List, str_eq}
use deribit_price_collector.Exceptions.{Exn, Result, ok, err}
use deribit_price_collector.Metrics.{RuntimeMetrics, Response, on_request_start, leave}
use deribit_price_collector.Api.Replies.{
  Reply, answer, raised, http_exception, validation_error, exception,
}
use deribit_price_collector.App.Errors.{
  ErrorItem, ErrorResponse, validation_exception_handler, http_exception_handler,
  unhandled_exception_handler,
}

-- request.headers.get("X-Request-ID", str(uuid4()))
unfoldable pub request_id_of : Option String → String → String
request_id_of none fresh = fresh
request_id_of (some id) fresh = id

-- A route's value as a response: FastAPI's default status.
abbrev pub success : {P : Type 0} → P → Response (P ⊎ ErrorResponse)
success payload = record { status_code = 200; body = inl payload; headers = λ n. none }

-- What the middleware is given: the response of the route or of a handler inside, or an exception.
unfoldable pub inner :
    {P : Type 0} → String → List ErrorItem → Reply P → Result (Response (P ⊎ ErrorResponse))
unfolding http_exception_handler validation_exception_handler
inner request_id errors (answer payload) = ok (success payload)
inner request_id errors (raised (http_exception status detail)) =
    ok (http_exception_handler request_id status detail)
inner request_id errors (raised validation_error) =
    ok (validation_exception_handler request_id errors)
inner request_id errors (raised (exception exc)) = err exc

-- What the client is sent.
unfoldable pub outer :
    {P : Type 0} → String → Result (Response (P ⊎ ErrorResponse)) → Response (P ⊎ ErrorResponse)
unfolding unhandled_exception_handler
outer request_id (ok response) = response
outer request_id (err exc) = unhandled_exception_handler request_id

module _ {F : Type 0} (zero_ms : F) (add : F → F → F) where
  -- collect_runtime_metrics, with no other request in between. `errors` is what pydantic reports.
  unfoldable pub serve :
      {P : Type 0}
      → String
      → Option String
      → String
      → F
      → List ErrorItem
      → Reply P
      → RuntimeMetrics F
      → Response (P ⊎ ErrorResponse) × RuntimeMetrics F
  serve path header fresh duration_ms errors reply m =
      let request_id = request_id_of header fresh in
      let started = on_request_start zero_ms add path m in
      let left =
        leave zero_ms add path request_id duration_ms (inner request_id errors reply) started in
      (outer request_id left.0, left.1)
