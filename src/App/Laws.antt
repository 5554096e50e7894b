-- ===== src/App/Laws.antt =====
-- What app/main.py sends for a request, and what it counts.
use deribit_price_collector.Prelude.{
  none, All, ℕ, ◌+◌, ◌/◌, String, ◌≡◌, refl, ◌⊎◌, inl, inr, Option, some, List, arith, ◌==◌, leb,
  Bool-cases,
}
use deribit_price_collector.Prelude.Int.{pos, ◌+ℤ◌, ◌-ℤ◌, int_laws, eq_of_parts}
use deribit_price_collector.Metrics.{
  RuntimeMetrics, Response, on_request_start, on_request_end, leave,
}
use deribit_price_collector.Metrics.Counting.{counted, one_if, counted-increment}
use deribit_price_collector.Metrics.Laws.{same_nat}
use deribit_price_collector.Api.Replies.{
  Reply, answer, raised, http_exception, validation_error, exception,
}
use deribit_price_collector.App.{request_id_of, inner, outer, serve}
use deribit_price_collector.App.Errors.{ErrorItem, ErrorResponse}
use deribit_price_collector.App.Errors.Laws.{IsPlain, normalize_validation_errors_lem}

-- The status that goes with the end of a route.
abbrev pub status_for : {P : Type 0} → Reply P → ℕ
status_for (answer payload) = 200
status_for (raised (http_exception status detail)) = status
status_for (raised validation_error) = 422
status_for (raised (exception exc)) = 500

-- No exception object is left in the details.
abbrev pub IsPlainDetails : Option (List ErrorItem) → Type 0
IsPlainDetails none = Unit
IsPlainDetails (some errors) = All IsPlain errors

-- The body: the route's value, or an error that names the request and that JSON can hold.
abbrev pub BodyFor : {P : Type 0} → String → Reply P → P ⊎ ErrorResponse → Type 0
BodyFor request_id (answer payload) body = body ≡ inl payload
BodyFor request_id (raised x) (inl payload) = ⊥
BodyFor request_id (raised x) (inr error) =
    (error.request_id ≡ request_id) × IsPlainDetails error.details

-- The response to a request and the counters after it.
pub record IsServed {F P : Type 0} (request_id : String) (reply : Reply P)
    (before : RuntimeMetrics F) (response : Response (P ⊎ ErrorResponse)) (after : RuntimeMetrics F)
    : Type 0 where
  pub status : response.status_code ≡ status_for reply
  pub body : BodyFor request_id reply response.body
  pub identified : response.headers "X-Request-ID" ≡ some request_id
  pub in_progress : after.requests_in_progress ≡ before.requests_in_progress
  pub total : after.requests_total ≡ before.requests_total + 1
  pub failed :
      after.requests_failed ≡ before.requests_failed + one_if (leb 400 response.status_code)
  pub grouped :
      (group : ℕ)
      → counted ◌==◌ group after.status_counts
        ≡ one_if ((response.status_code / 100) == group) + counted ◌==◌ group before.status_counts

module _ {F : Type 0} (zero_ms : F) (add : F → F → F) where
  -- The counters after a request that was counted under `status`.
  ended_counts :
      (path : String) (status : ℕ) (duration_ms : F) (m : RuntimeMetrics F)
      → let after =
          on_request_end zero_ms add path status duration_ms
            (on_request_start zero_ms add path m) in
        (after.requests_in_progress ≡ m.requests_in_progress)
        × (after.requests_total ≡ m.requests_total + 1)
        × (after.requests_failed ≡ m.requests_failed + one_if (leb 400 status))
        × ((group : ℕ)
            → counted ◌==◌ group after.status_counts
              ≡ one_if ((status / 100) == group) + counted ◌==◌ group m.status_counts)
  unfolding on_request_end on_request_start
  ended_counts path status duration_ms m = (
    eq_of_parts ((m.requests_in_progress +ℤ pos 1) -ℤ pos 1) m.requests_in_progress
        (omega int_laws),
    refl,
    elim (Bool-cases (leb 400 status)) [ inl e ↦ rw e | inr e ↦ rw e (omega arith) ],
    λ group. counted-increment ◌==◌ same_nat group (status / 100) m.status_counts,
  )

  -- Whatever a route gives or raises, the client is sent one response with the status that goes with
  -- it, with the route's value or an error that names the request and has no exception object in its
  -- details, and with the request's id in its
  -- header; and the counters have one more request in total and under the group of that status, one
  -- more failed exactly if the status is 400 or more, and as many in progress as before.
  pub serve_lem :
      {P : Type 0} (path : String) (header : Option String) (fresh : String) (duration_ms : F)
      (errors : List ErrorItem) (reply : Reply P) (m : RuntimeMetrics F)
      → IsServed
          (request_id_of header fresh)
          reply
          m
          (serve zero_ms add path header fresh duration_ms errors reply m).0
          (serve zero_ms add path header fresh duration_ms errors reply m).1
  unfolding serve inner outer leave
  serve_lem path header fresh duration_ms errors (answer payload) m =
      let (a, b, d, g) = ended_counts path 200 duration_ms m in
      record {
        status = refl;
        body = refl;
        identified = refl;
        in_progress = a;
        total = b;
        failed = d;
        grouped = g;
      }
  serve_lem path header fresh duration_ms errors (raised (http_exception status detail)) m =
      let (a, b, d, g) = ended_counts path status duration_ms m in
      record {
        status = refl;
        body = (refl, tt);
        identified = refl;
        in_progress = a;
        total = b;
        failed = d;
        grouped = g;
      }
  serve_lem path header fresh duration_ms errors (raised validation_error) m =
      let (a, b, d, g) = ended_counts path 422 duration_ms m in
      record {
        status = refl;
        body = (refl, (normalize_validation_errors_lem errors).0);
        identified = refl;
        in_progress = a;
        total = b;
        failed = d;
        grouped = g;
      }
  serve_lem path header fresh duration_ms errors (raised (exception exc)) m =
      let (a, b, d, g) = ended_counts path 500 duration_ms m in
      record {
        status = refl;
        body = (refl, tt);
        identified = refl;
        in_progress = a;
        total = b;
        failed = d;
        grouped = g;
      }
