-- ===== src/Exceptions.antt =====
-- collector/exceptions.py: the exceptions of the collector, and the result of code that may raise.
-- The built-in and third-party exceptions that its handlers tell apart stand beside them.
-- Messages are kept as far as they name the failed tickers.
use deribit_price_collector.Prelude.{
  String, ◌≡◌, refl, ◌⊎◌, inl, inr, Bool, true, false, List, arith,
}

-- Why a batch failed: which `raise` of collector/tasks.py it was.
pub data Cause : Type 0 where
  commit_failed unexpected unsupported_range : Cause
  tickers_failed : List String → Cause
  backfill_failed : String → Cause

-- `value_error` stands for the built-in `ValueError` and its subclasses, such as
-- `json.JSONDecodeError`; `http_error` for `httpx.HTTPError` and its subclasses; `other` for any
-- exception that no handler names (`TypeError`, `AttributeError`, SQLAlchemy's errors, ...).
pub data Exn : Type 0 where
  unsupported_ticker : String → Exn
  deribit_response : Exn
  deribit_request : Exn
  batch_permanent : Cause → Exn
  batch_transient : Cause → Exn
  http_error : Exn
  value_error : Exn
  other : Exn

-- isinstance(exc, PriceCollectionPermanentError)
abbrev pub is_collection_permanent : Exn → Bool
is_collection_permanent (unsupported_ticker _) = true
is_collection_permanent deribit_response = true
is_collection_permanent (batch_permanent _) = true
is_collection_permanent _ = false

-- isinstance(exc, PriceCollectionTransientError)
abbrev pub is_collection_transient : Exn → Bool
is_collection_transient deribit_request = true
is_collection_transient (batch_transient _) = true
is_collection_transient _ = false

-- isinstance(exc, PriceBatchPermanentError)
abbrev pub is_batch_permanent : Exn → Bool
is_batch_permanent (batch_permanent _) = true
is_batch_permanent _ = false

-- isinstance(exc, PriceBatchTransientError)
abbrev pub is_batch_transient : Exn → Bool
is_batch_transient (batch_transient _) = true
is_batch_transient _ = false

-- isinstance(exc, ValueError)
abbrev pub is_value_error : Exn → Bool
is_value_error value_error = true
is_value_error _ = false

pub data Result {ℓ} (A : Type ℓ) : Type ℓ where
  ok : A → Result A
  err : Exn → Result A

-- The statements of a block run in turn, and the first exception ends it.
infixl 5 ◌>>=◌ ◌>>◌
abbrev pub ◌>>=◌ {ℓ κ} : {A : Type ℓ} {B : Type κ} → Result A → (A → Result B) → Result B
err exc >>= rest = err exc
ok value >>= rest = rest value

abbrev pub ◌>>◌ {κ} : {B : Type κ} → Result (Unit {0}) → Result B → Result B
err exc >> rest = err exc
ok done >> rest = rest

abbrev pub is_ok {ℓ} : {A : Type ℓ} → Result A → Bool
is_ok (ok _) = true
is_ok (err _) = false

pub Result-cases {ℓ} :
    {A : Type ℓ} (r : Result A) → ((a : A) × (r ≡ ok a)) ⊎ ((x : Exn) × (r ≡ err x))
Result-cases (ok a) = inl (a, refl)
Result-cases (err x) = inr (x, refl)

pub ok_eq {ℓ} : {A : Type ℓ} {a b : A} → ok a ≡ ok b → a ≡ b
ok_eq h = cc

pub err_eq {ℓ} : {A : Type ℓ} {x y : Exn} → ◌≡◌ {A = Result A} (err x) (err y) → x ≡ y
err_eq h = cc

-- Inversion of a chain that returned.
pub >>=-eq-ok {ℓ κ} :
    {A : Type ℓ} {B : Type κ} (first : Result A) (rest : A → Result B) {b : B}
    → (first >>= rest) ≡ ok b
    → (a : A) × (first ≡ ok a) × (rest a ≡ ok b)
>>=-eq-ok (err exc) rest h = cc
>>=-eq-ok (ok value) rest h = (value, refl, h)

-- No exception is both permanent and transient.
pub kinds_disjoint :
    (x : Exn) → is_collection_permanent x ≡ true → is_collection_transient x ≡ false
kinds_disjoint x h = ground arith
