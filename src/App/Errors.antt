-- ===== src/App/Errors.antt =====
-- The error handlers of app/main.py, and app/core/error_responses.py.
pub mod Laws
use deribit_price_collector.Prelude.{
  ℕ, String, ◌≡◌, refl, ◌⊎◌, inr, Option, none, some, List, [], ◌∷◌, map, All, str_eq,
  if◌then◌else◌,
}
use deribit_price_collector.Prelude.Show.{show}
use Prim.Native.String.{◌++◌}
use deribit_price_collector.Metrics.{Response}

-- What pydantic puts under error["ctx"]["error"]: an exception, by its text, or a text.
pub data ErrorValue : Type 0 where
  exception_object : String → ErrorValue
  text : String → ErrorValue

-- An entry of `exc.errors()`: its other keys, and its context with its other keys.
pub record ErrorContext : Type 0 where
  pub error : Option ErrorValue
  pub others : List (String × String)

pub record ErrorItem : Type 0 where
  pub ctx : Option ErrorContext
  pub others : List (String × String)

-- str(value)
abbrev pub str_of : ErrorValue → String
str_of (exception_object s) = s
str_of (text s) = s

abbrev pub normalize_context : ErrorContext → ErrorContext
normalize_context c = record c { error = normalize_error c.error }
  where
    normalize_error : Option ErrorValue → Option ErrorValue
    normalize_error none = none
    normalize_error (some v) = some (text (str_of v))

abbrev pub normalize_item : ErrorItem → ErrorItem
normalize_item error = record error { ctx = normalize_ctx error.ctx }
  where
    normalize_ctx : Option ErrorContext → Option ErrorContext
    normalize_ctx none = none
    normalize_ctx (some c) = some (normalize_context c)

-- normalize_validation_errors
unfoldable pub normalize_validation_errors : List ErrorItem → List ErrorItem
normalize_validation_errors errors = map normalize_item errors

-- app/schemas.py: `ErrorResponse`.
pub record ErrorResponse : Type 0 where
  pub error_code : String
  pub message : String
  pub request_id : String
  pub details : Option (List ErrorItem)

-- build_error_response. The headers that the JSON body adds are left out.
unfoldable pub build_error_response :
    {P : Type 0}
    → ℕ
    → String
    → String
    → String
    → Option (List ErrorItem)
    → Response (P ⊎ ErrorResponse)
build_error_response status_code request_id error_code message details = record {
  status_code = status_code;
  body = inr (record {
    error_code = error_code;
    message = message;
    request_id = request_id;
    details = details;
  });
  headers = λ n. if str_eq n "X-Request-ID" then some request_id else none;
}

-- Both handlers of validation errors build the same response.
unfoldable pub validation_exception_handler :
    {P : Type 0} → String → List ErrorItem → Response (P ⊎ ErrorResponse)
unfolding build_error_response normalize_validation_errors
validation_exception_handler request_id errors =
    build_error_response 422 request_id "validation_error" "Validation failed"
      (some (normalize_validation_errors errors))

-- The detail is a text wherever the application raises `HTTPException`.
unfoldable pub http_exception_handler :
    {P : Type 0} → String → ℕ → String → Response (P ⊎ ErrorResponse)
unfolding build_error_response show
http_exception_handler request_id status_code detail =
    build_error_response status_code request_id ("http_" ++ show status_code) detail none

unfoldable pub unhandled_exception_handler : {P : Type 0} → String → Response (P ⊎ ErrorResponse)
unfolding build_error_response
unhandled_exception_handler request_id =
    build_error_response 500 request_id "internal_server_error" "Internal server error" none
