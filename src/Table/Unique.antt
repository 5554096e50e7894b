-- ===== src/Table/Unique.antt =====
-- The constraints of the table: the primary key and `uq_prices_ticker_timestamp`.
pub mod Write
pub mod Insert
pub mod Member
use deribit_price_collector.Prelude.{
  ℕ, String, ◌≡◌, refl, ap, Bool, true, false, List, [], ◌∷◌, ◌&&◌, Option, none, some, All, filter,
  Bool-cases, inl, inr, arith, ◌==◌, str_eq, str_eq_iff, str_eq_refl, if◌then◌else◌,
}
use deribit_price_collector.Prelude.Int.{ℤ, eq_ℤ, eq_ℤ_iff}
use deribit_price_collector.Prelude.Order.{Ordered, filter_none}
use deribit_price_collector.Table.{Price, Table, same_key}

-- Two rows share neither their id nor their ticker and timestamp.
pub record Distinct (r q : Price) : Type 0 where
  pub id : (q.id == r.id) ≡ false
  pub key : same_key r.ticker r.timestamp q ≡ false

abbrev pub IsTable : Table → Type 0
IsTable = Ordered Distinct

-- The table as a map from keys to rows.
abbrev pub find : String → ℤ → Table → Option Price
find ticker timestamp [] = none
find ticker timestamp (r ∷ t) =
    if same_key ticker timestamp r then some r else find ticker timestamp t

-- UPDATE prices SET price = ... WHERE id = ...
unfoldable pub set_price : ℕ → ℤ → Table → Table
set_price id price [] = []
set_price id price (r ∷ t) =
    (if r.id == id then record r { price = price } else r) ∷ set_price id price t

abbrev pub option_list : Option Price → List Price
option_list none = []
option_list (some r) = r ∷ []

pub same_key_iff :
    (ticker : String) (timestamp : ℤ) (r : Price)
    → same_key ticker timestamp r ≡ true
    → (r.ticker ≡ ticker) × (r.timestamp ≡ timestamp)
same_key_iff ticker timestamp r h = (
  (str_eq_iff r.ticker ticker).0 (ground arith),
  (eq_ℤ_iff r.timestamp timestamp).0 (ground arith),
)

key_apart :
    (ticker : String) (timestamp : ℤ) (r : Price) (t : Table)
    → same_key ticker timestamp r ≡ true
    → All (Distinct r) t
    → All (λ q. same_key ticker timestamp q ≡ false) t
key_apart ticker timestamp r [] h d = tt
key_apart ticker timestamp r (q ∷ t) h d =
    let (e, f) = same_key_iff ticker timestamp r h in
    (rw (← e, ← f) d.0.key, key_apart ticker timestamp r t h d.1)

-- In a valid table the rows of a key are the one row that `find` gives, or none.
pub filter-same_key :
    (ticker : String) (timestamp : ℤ) (t : Table)
    → IsTable t
    → filter (same_key ticker timestamp) t ≡ option_list (find ticker timestamp t)
filter-same_key ticker timestamp [] v = refl
filter-same_key ticker timestamp (r ∷ t) v = elim (Bool-cases (same_key ticker timestamp r)) [
  | inl e ↦ rw e (
      ap (◌∷◌ r) (filter_none (same_key ticker timestamp) t (key_apart ticker timestamp r t e v.0)))
  | inr e ↦ rw e (filter-same_key ticker timestamp t v.1)
]
