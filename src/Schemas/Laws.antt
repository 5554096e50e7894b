-- ===== src/Schemas/Laws.antt =====
-- Which queries app/schemas.py accepts.
use deribit_price_collector.Prelude.{
  String, ◌≡◌, refl, sym, ap, ◌∙◌, ◌↔◌, Bool, true, false, Option, none, some, Bool-cases, inl, inr,
  arith,
}
use deribit_price_collector.Prelude.Int.{ℤ, pos, ◌≤ℤ◌, leb_ℤ, ltb_ℤ}
use deribit_price_collector.Exceptions.{Result, ok, ok_eq, >>=-eq-ok, ◌>>◌}
use deribit_price_collector.Config.{Config}
use deribit_price_collector.Providers.{in_supported_ticker_set}
use deribit_price_collector.Schemas.{
  TickerWithPaginationQuery, PriceByDateQuery, CandleQuery, check, between, validate_ticker,
  ticker_with_pagination_query, validate_timestamp, validate_range, price_by_date_query,
  candle_query,
}

-- A time that the API takes.
abbrev pub IsTime : ℤ → Type 0
IsTime n = (pos 0 ≤ℤ n) × (n ≤ℤ pos 2_500_000_000)

abbrev pub IsBound : Option ℤ → Type 0
IsBound none = Unit
IsBound (some n) = IsTime n

abbrev pub InRange : Option ℤ → Option ℤ → Type 0
InRange (some n) (some m) = n ≤ℤ m
InRange _ _ = Unit

-- What a query by dates has to be.
pub record IsDateQuery (c : Config) (q : PriceByDateQuery) : Type 0 where
  pub limited : (pos 1 ≤ℤ q.base.limit) × (q.base.limit ≤ℤ pos 1000)
  pub shifted : pos 0 ≤ℤ q.base.offset
  pub supported : in_supported_ticker_set c q.base.ticker ≡ ok true
  pub from : IsBound q.timestamp_from
  pub to : IsBound q.timestamp_to
  pub ordered : InRange q.timestamp_from q.timestamp_to

pub check_then {ℓ} :
    {A : Type ℓ} (b : Bool) (rest : Result A) {a : A}
    → (check b >> rest) ≡ ok a
    → (b ≡ true) × (rest ≡ ok a)
check_then true rest h = (refl, h)
check_then false rest h = cc

pub range_then {ℓ} :
    {A : Type ℓ} (n m : Option ℤ) (rest : Result A) {a : A}
    → (validate_range n m >> rest) ≡ ok a
    → InRange n m × (rest ≡ ok a)
range_then none m rest h = (tt, h)
range_then (some n) none rest h = (tt, h)
range_then (some n) (some m) rest h = elim (Bool-cases (ltb_ℤ m n)) [
  | inl e ↦ cc (rw e at h)
  | inr e ↦ (ground arith, rw e at h)
]

pub validate_ticker_ok :
    (c : Config) (value out : String)
    → validate_ticker c value ≡ ok out
    → (in_supported_ticker_set c value ≡ ok true) × (out ≡ value)
unfolding validate_ticker
validate_ticker_ok c value out h =
    let (b, p, k) = >>=-eq-ok (in_supported_ticker_set c value) _ h in
    let (e, l) = check_then b (ok value) k in (p ∙ ap ok e, sym (ok_eq l))

validate_timestamp_ok : (v out : Option ℤ) → validate_timestamp v ≡ ok out → IsBound v × (out ≡ v)
validate_timestamp_ok none out h = (tt, sym (ok_eq h))
validate_timestamp_ok (some v) out h = elim (Bool-cases (ltb_ℤ v (pos 0))) [
  | inl e ↦ cc (rw e at h)
  | inr e ↦ elim (Bool-cases (ltb_ℤ (pos 2_500_000_000) v)) [
    | inl f ↦ cc (rw (e, f) at h)
    | inr f ↦ ((ground arith, ground arith), sym (ok_eq (rw (e, f) at h)))
  ]
]

validate_timestamp_of : (v : Option ℤ) → IsBound v → validate_timestamp v ≡ ok v
validate_timestamp_of none h = refl
validate_timestamp_of (some v) h = ground arith

pub validate_range_of : (n m : Option ℤ) → InRange n m → validate_range n m ≡ ok tt
validate_range_of none m h = refl
validate_range_of (some n) none h = refl
validate_range_of (some n) (some m) h = ground arith

pub pagination_ok :
    (c : Config) (q out : TickerWithPaginationQuery)
    → ticker_with_pagination_query c q ≡ ok out
    → (between (pos 1) (pos 1000) q.limit ≡ true)
      × (leb_ℤ (pos 0) q.offset ≡ true)
      × (in_supported_ticker_set c q.ticker ≡ ok true)
      × (out ≡ q)
unfolding ticker_with_pagination_query
pagination_ok c q out h =
    let (a, h₁) = check_then (between (pos 1) (pos 1000) q.limit) _ h in
    let (b, h₂) = check_then (leb_ℤ (pos 0) q.offset) _ h₁ in
    let (ticker, p, h₃) = >>=-eq-ok (validate_ticker c q.ticker) _ h₂ in
    let (e, f) = validate_ticker_ok c q.ticker ticker p in
    (a, b, e, sym (ok_eq h₃) ∙ ap (λ t. record q { ticker = t }) f)

pub pagination_of :
    (c : Config) (q : TickerWithPaginationQuery)
    → (pos 1 ≤ℤ q.limit) × (q.limit ≤ℤ pos 1000)
    → pos 0 ≤ℤ q.offset
    → in_supported_ticker_set c q.ticker ≡ ok true
    → ticker_with_pagination_query c q ≡ ok q
unfolding ticker_with_pagination_query validate_ticker
pagination_of c q h k p =
    let a : between (pos 1) (pos 1000) q.limit ≡ true = ground (arith, h) in
    let b : leb_ℤ (pos 0) q.offset ≡ true = ground (arith, k) in rw (a, b, p)

IsDateQuery-of :
    (c : Config) (q out : PriceByDateQuery)
    → price_by_date_query c q ≡ ok out
    → IsDateQuery c q × (out ≡ q)
unfolding price_by_date_query
IsDateQuery-of c q out h =
    let (base, p₁, h₁) = >>=-eq-ok (ticker_with_pagination_query c q.base) _ h in
    let (lo, p₂, h₂) = >>=-eq-ok (validate_timestamp q.timestamp_from) _ h₁ in
    let (hi, p₃, h₃) = >>=-eq-ok (validate_timestamp q.timestamp_to) _ h₂ in
    let (r, h₄) = range_then lo hi _ h₃ in
    let (limited, shifted, supported, same) = pagination_ok c q.base base p₁ in
    let (from, same_lo) = validate_timestamp_ok q.timestamp_from lo p₂ in
    let (to, same_hi) = validate_timestamp_ok q.timestamp_to hi p₃ in
    (
      record {
        limited = ground (arith, limited);
        shifted = ground (arith, shifted);
        supported = supported;
        from = from;
        to = to;
        ordered = rw (← same_lo, ← same_hi) r;
      },
      sym (ok_eq h₄) ∙ λ i. record {
        base = same i;
        timestamp_from = same_lo i;
        timestamp_to = same_hi i;
      },
    )

date_query_of :
    (c : Config) (q : PriceByDateQuery) → IsDateQuery c q → price_by_date_query c q ≡ ok q
unfolding price_by_date_query
date_query_of c q h = rw (
  pagination_of c q.base h.limited h.shifted h.supported,
  validate_timestamp_of q.timestamp_from h.from,
  validate_timestamp_of q.timestamp_to h.to,
  validate_range_of q.timestamp_from q.timestamp_to h.ordered,
)

-- A query by dates is accepted, unchanged, exactly if its ticker is supported, its limit is from 1 to
-- 1000, its offset is not negative, each bound that is given is from 0 to 2 500 000 000, and they are
-- in order if both are given.
pub price_by_date_query_iff :
    (c : Config) (q out : PriceByDateQuery)
    → (price_by_date_query c q ≡ ok out) ↔ (IsDateQuery c q × (out ≡ q))
price_by_date_query_iff c q out =
    (IsDateQuery-of c q out, λ h. date_query_of c q h.0 ∙ ap ok (sym h.1))

-- What a query for candles has to be.
pub record IsCandleQuery (c : Config) (q : CandleQuery) : Type 0 where
  pub supported : in_supported_ticker_set c q.ticker ≡ ok true
  pub from : IsTime q.timestamp_from
  pub to : IsTime q.timestamp_to
  pub ordered : q.timestamp_from ≤ℤ q.timestamp_to

IsCandleQuery-of :
    (c : Config) (q out : CandleQuery) → candle_query c q ≡ ok out → IsCandleQuery c q × (out ≡ q)
unfolding candle_query
IsCandleQuery-of c q out h =
    let (ticker, p, h₁) = >>=-eq-ok (validate_ticker c q.ticker) _ h in
    let (a, h₂) = check_then (between (pos 0) (pos 2_500_000_000) q.timestamp_from) _ h₁ in
    let (b, h₃) = check_then (between (pos 0) (pos 2_500_000_000) q.timestamp_to) _ h₂ in
    let (r, h₄) = range_then (some q.timestamp_from) (some q.timestamp_to) _ h₃ in
    let (supported, same) = validate_ticker_ok c q.ticker ticker p in
    (
      record {
        supported = supported;
        from = ground (arith, a);
        to = ground (arith, b);
        ordered = r;
      },
      sym (ok_eq h₄) ∙ ap (λ t. record q { ticker = t }) same,
    )

pub time_between : (n : ℤ) → IsTime n → between (pos 0) (pos 2_500_000_000) n ≡ true
time_between n h = ground arith

candle_query_of : (c : Config) (q : CandleQuery) → IsCandleQuery c q → candle_query c q ≡ ok q
unfolding candle_query validate_ticker
candle_query_of c q h = rw (
  h.supported,
  time_between q.timestamp_from h.from,
  time_between q.timestamp_to h.to,
  validate_range_of (some q.timestamp_from) (some q.timestamp_to) h.ordered,
)

-- A query for candles is accepted, unchanged, exactly if its ticker is supported and its two bounds
-- are from 0 to 2 500 000 000 and in order.
pub candle_query_iff :
    (c : Config) (q out : CandleQuery)
    → (candle_query c q ≡ ok out) ↔ (IsCandleQuery c q × (out ≡ q))
candle_query_iff c q out =
    (IsCandleQuery-of c q out, λ h. candle_query_of c q h.0 ∙ ap ok (sym h.1))
