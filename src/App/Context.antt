-- ===== src/App/Context.antt =====
-- What app/main.py logs for a request, with the context variable of app/core/request_context.py that the log
-- formatter reads: the middleware sets it before the route runs, and resets it on both of its ways out.
use Prim.Native.String.{◌++◌ as join}
use deribit_price_collector.Prelude.{String, ◌≡◌, refl, All, List, [], ◌∷◌, ◌++◌, map}
use deribit_price_collector.Exceptions.{Exn, Result, ok, err}

-- ContextVar("request_id", default="-")
abbrev pub no_request : String
no_request = "-"

-- A message that is logged, with the value of the variable at that time.
pub record Logged : Type 0 where
  pub message : String
  pub request_id : String

-- The value while the route runs, and after the middleware has reset it to the one before.
abbrev pub during : String → String → String
during before request_id = request_id

abbrev pub afterwards : String → String → String
afterwards before request_id = before

abbrev pub logged : String → String → Logged
logged request_id message = record { message = message; request_id = request_id }

-- The handler of other exceptions stands outside the middleware, so it logs after the reset.
abbrev pub log_unhandled : String → String → Logged
log_unhandled current path = logged current (join "Unhandled application error | path=" path)

-- What is logged for a request, from the messages of its route and from how the middleware ends.
unfoldable pub request_log :
    {A : Type 0} → String → String → String → List String → Result A → List Logged
request_log before request_id path messages (ok response) =
    map (logged (during before request_id)) messages
request_log before request_id path messages (err exc) =
    map (logged (during before request_id)) messages
    ++ log_unhandled (afterwards before request_id) path ∷ []

logged-All :
    (request_id : String) (messages : List String)
    → All (λ (l : Logged). l.request_id ≡ request_id) (map (logged request_id) messages)
logged-All request_id [] = tt
logged-All request_id (m ∷ messages) = (refl, logged-All request_id messages)

-- Where no handler inside the middleware takes an exception, the messages of the route carry the id of the
-- request, and the message about the exception, the last one, carries what was there before: `-` on a
-- server.
pub request_log_lem :
    (A : Type 0) (before request_id path : String) (messages : List String) (exc : Exn)
    → (own : List Logged) × (request_log {A = A} before request_id path messages (err exc)
        ≡ own ++ log_unhandled before path ∷ [])
      × All (λ (l : Logged). l.request_id ≡ request_id) own
unfolding request_log
request_log_lem A before request_id path messages exc =
    (map (logged request_id) messages, refl, logged-All request_id messages)
