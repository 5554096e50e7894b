-- ===== src/Api/Replies.antt =====
-- How a route ends, and the values that routes share.
use deribit_price_collector.Prelude.{ℕ, String, List, Option, none, some}
use deribit_price_collector.Prelude.Int.{ℤ}
use deribit_price_collector.Exceptions.{Exn, Result, ok, err}
use deribit_price_collector.Table.{Price}

-- What a route raises: `HTTPException` with its status and detail, pydantic's `ValidationError`, or any
-- other exception.
pub data Raised : Type 0 where
  http_exception : ℕ → String → Raised
  validation_error : Raised
  exception : Exn → Raised

pub data Reply {ℓ} (A : Type ℓ) : Type ℓ where
  answer : A → Reply A
  raised : Raised → Reply A

infixl 5 ◌>>=◌
abbrev pub ◌>>=◌ {ℓ κ} : {A : Type ℓ} {B : Type κ} → Reply A → (A → Reply B) → Reply B
raised x >>= rest = raised x
answer a >>= rest = rest a

-- The query that `Depends()` builds: what the checks raise is a `ValidationError`.
abbrev pub depends {ℓ} : {A : Type ℓ} → Result A → Reply A
depends (err exc) = raised validation_error
depends (ok query) = answer query

-- A call from a route.
abbrev pub call {ℓ} : {A : Type ℓ} → Result A → Reply A
call (err exc) = raised (exception exc)
call (ok value) = answer value

-- app/schemas.py: `PriceResponse`.
pub record PriceResponse : Type 0 where
  pub ticker : String
  pub price : ℤ
  pub timestamp : ℤ
  pub created_at : ℕ

-- PriceResponse.model_validate(price)
abbrev pub model_validate : Price → PriceResponse
model_validate r = record {
  ticker = r.ticker;
  price = r.price;
  timestamp = r.timestamp;
  created_at = r.created_at;
}

-- if not rows: raise HTTPException(status_code=404, detail=detail)
abbrev pub or_404 {ℓ} : {A : Type ℓ} → String → List A → Reply (List A)
or_404 detail List.[] = raised (http_exception 404 detail)
or_404 detail (List.◌∷◌ row rows) = answer (List.◌∷◌ row rows)

-- if row is None: raise HTTPException(status_code=404, detail=detail)
abbrev pub found_or_404 {ℓ} : {A : Type ℓ} → String → Option A → Reply A
found_or_404 detail none = raised (http_exception 404 detail)
found_or_404 detail (some row) = answer row
