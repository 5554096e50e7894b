-- ===== src/Repository/Queries.antt =====
-- The reads of app/repositories.py on a valid table: what they return, for every arrangement that
-- the database may choose.
use deribit_price_collector.Prelude.{
  String, ◌≡◌, refl, sym, ◌∙◌, ◌↔◌, true, List, [], ◌∷◌, none, some, All, Bool-cases, inl, inr,
  arith, str_eq_iff, map,
}
use deribit_price_collector.Prelude.Int.{ℤ, ◌≤ℤ◌, ◌<ℤ◌, eq_ℤ, eq_ℤ_iff}
use deribit_price_collector.Prelude.Order.{
  Ordered, Member, All-member, Member-map, map-Member, Ordered-map,
}
use deribit_price_collector.Exceptions.{ok, >>=-eq-ok}
use deribit_price_collector.Table.{
  Price, Table, Select, matches, ticker_eq, timestamp_ge, timestamp_le, asc, InOrder,
}
use deribit_price_collector.Table.Engine.{Engine, IsEngine, Answers}
use deribit_price_collector.Table.Answers.{
  IsMatch, All-answer, Ordered-answer, Ordered-answer_of, answer_complete,
}
use deribit_price_collector.Table.Unique.{Distinct, IsTable, find}
use deribit_price_collector.Table.Unique.Member.{find-Member, Member-find, Distinct-symm}
use deribit_price_collector.Repository.{get_timestamps_in_range}

-- The table has a price of the ticker at the time.
abbrev pub HasPrice : Table → String → ℤ → Type 0
HasPrice t ticker n = (r : Price) × (find ticker n t ≡ some r)

-- Rows of one ticker in ascending order, with no row twice, have strictly ascending timestamps.
strict :
    (x y : Price)
    → x.ticker ≡ y.ticker
    → x.timestamp ≤ℤ y.timestamp
    → Distinct x y
    → x.timestamp <ℤ y.timestamp
strict x y e h d = elim (Bool-cases (eq_ℤ y.timestamp x.timestamp)) [
  | inl p ↦ absurd (clash ((eq_ℤ_iff y.timestamp x.timestamp).0 p))
  | inr p ↦ ground arith
]
  where
    clash : y.timestamp ≡ x.timestamp → ⊥
    clash p = ground (arith, d.key, str_eq_iff y.ticker x.ticker)

All-strict :
    (x : Price) (rows : List Price)
    → All (λ r. x.ticker ≡ r.ticker) rows
    → All (λ r. x.timestamp ≤ℤ r.timestamp) rows
    → All (Distinct x) rows
    → All (λ r. x.timestamp <ℤ r.timestamp) rows
All-strict x [] e h d = tt
All-strict x (r ∷ rows) e h d = (strict x r e.0 h.0 d.0, All-strict x rows e.1 h.1 d.1)

same_ticker :
    (ticker : String) (x : Price) (rows : List Price)
    → x.ticker ≡ ticker
    → All (λ r. r.ticker ≡ ticker) rows
    → All (λ r. x.ticker ≡ r.ticker) rows
same_ticker ticker x [] e h = tt
same_ticker ticker x (r ∷ rows) e h = (e ∙ sym h.0, same_ticker ticker x rows e h.1)

abbrev Earlier : Price → Price → Type 0
Earlier x y = x.timestamp <ℤ y.timestamp

Ordered-strict :
    (ticker : String) (rows : List Price)
    → All (λ r. r.ticker ≡ ticker) rows
    → Ordered (InOrder (some asc)) rows
    → Ordered Distinct rows
    → Ordered Earlier rows
Ordered-strict ticker [] e h d = tt
Ordered-strict ticker (x ∷ rows) e h d = (
  All-strict x rows (same_ticker ticker x rows e.0 e.1) h.0 d.0,
  Ordered-strict ticker rows e.1 h.1 d.1,
)

abbrev pub range_stmt : String → ℤ → ℤ → Select
range_stmt ticker lo hi = record {
  conditions = ticker_eq ticker ∷ timestamp_ge lo ∷ timestamp_le hi ∷ [];
  order = some asc;
  limit = none;
  offset = 0;
}

-- The conditions of the range, read off.
in_range :
    (ticker : String) (lo hi : ℤ) (r : Price)
    → matches (range_stmt ticker lo hi).conditions r ≡ true
    → (r.ticker ≡ ticker) × (lo ≤ℤ r.timestamp) × (r.timestamp ≤ℤ hi)
in_range ticker lo hi r h = ground (arith, str_eq_iff r.ticker ticker)

range_in :
    (ticker : String) (lo hi : ℤ) (r : Price)
    → r.ticker ≡ ticker
    → lo ≤ℤ r.timestamp
    → r.timestamp ≤ℤ hi
    → matches (range_stmt ticker lo hi).conditions r ≡ true
range_in ticker lo hi r e f g = ground (arith, str_eq_iff r.ticker ticker)

pub All-weaken :
    {P Q : Price → Type 0} (rows : List Price) → ((r : Price) → P r → Q r) → All P rows → All Q rows
All-weaken [] f h = tt
All-weaken (r ∷ rows) f h = (f r h.0, All-weaken rows f h.1)

module _ (e : Engine) (law : IsEngine e) (t : Table) (v : IsTable t) where
  module _ (ticker : String) (lo hi : ℤ) (rows : List Price)
      (h : e.execute (range_stmt ticker lo hi) t ≡ ok rows) where
    range_answer : Answers (range_stmt ticker lo hi) t rows
    range_answer = law.answers (range_stmt ticker lo hi) t rows h

    rows-Earlier : Ordered Earlier rows
    rows-Earlier =
        Ordered-strict ticker rows
          (All-weaken rows (λ r m. (in_range ticker lo hi r m.matching).0)
            (All-answer (range_stmt ticker lo hi) t rows range_answer))
          (Ordered-answer (range_stmt ticker lo hi) t rows range_answer)
          (Ordered-answer_of (range_stmt ticker lo hi) t rows range_answer Distinct Distinct-symm v)

    row_sound :
        (n : ℤ)
        → Member n (map (λ (r : Price). r.timestamp) rows)
        → (lo ≤ℤ n) × (n ≤ℤ hi) × HasPrice t ticker n
    row_sound n m =
        let (r, k, p) = map-Member (λ (r : Price). r.timestamp) n rows m in
        let a =
          All-member (IsMatch (range_stmt ticker lo hi) t) r rows
            (All-answer (range_stmt ticker lo hi) t rows range_answer) k in
        let (q, f, g) = in_range ticker lo hi r a.matching in
        (rw p f, rw p g, (r, rw (p, ← q) (Member-find r t v a.stored)))

    row_complete :
        (n : ℤ)
        → lo ≤ℤ n
        → n ≤ℤ hi
        → HasPrice t ticker n
        → Member n (map (λ (r : Price). r.timestamp) rows)
    row_complete n f g (r, p) =
        let (m, q, k) = find-Member ticker n t r p in
        rw (← k) (
          Member-map (λ (r : Price). r.timestamp) r rows
            (answer_complete (range_stmt ticker lo hi) t rows range_answer r refl refl m
              (range_in ticker lo hi r q (rw k f) (rw k g))))

  -- What `get_timestamps_in_range` returns is, strictly ascending and so each once, exactly the times from
  -- `timestamp_from` to `timestamp_to` at which the table has a price of the ticker.
  pub get_timestamps_in_range_iff :
      (ticker : String) (timestamp_from timestamp_to : ℤ) (timestamps : List ℤ)
      → get_timestamps_in_range e ticker timestamp_from timestamp_to t ≡ ok timestamps
      → Ordered ◌<ℤ◌ timestamps
        × ((n : ℤ)
            → Member n timestamps
              ↔ ((timestamp_from ≤ℤ n) × (n ≤ℤ timestamp_to) × HasPrice t ticker n))
  unfolding get_timestamps_in_range
  get_timestamps_in_range_iff ticker lo hi timestamps h =
      let (rows, p, q) = >>=-eq-ok (e.execute (range_stmt ticker lo hi) t) _ h in
      let same : map (λ (r : Price). r.timestamp) rows ≡ timestamps = cc in
      rw (← same) (
        Ordered-map ◌<ℤ◌ (λ (r : Price). r.timestamp) rows (rows-Earlier ticker lo hi rows p),
        λ n. (row_sound ticker lo hi rows p n, λ w. row_complete ticker lo hi rows p n w.0 w.1 w.2),
      )

  -- `get_timestamps_in_range` fails only if its query does. Otherwise it returns, strictly ascending
  -- and so each once, exactly the times from `timestamp_from` to `timestamp_to` at which the table has
  -- a price of the ticker.
  pub get_timestamps_in_range_lem :
      (ticker : String) (timestamp_from timestamp_to : ℤ) (rows : List Price)
      → e.execute (range_stmt ticker timestamp_from timestamp_to) t ≡ ok rows
      → (timestamps : List ℤ) × (get_timestamps_in_range e ticker timestamp_from timestamp_to t
          ≡ ok timestamps)
        × Ordered ◌<ℤ◌ timestamps
        × ((n : ℤ)
            → Member n timestamps
              ↔ ((timestamp_from ≤ℤ n) × (n ≤ℤ timestamp_to) × HasPrice t ticker n))
  get_timestamps_in_range_lem ticker lo hi rows p =
      let run : get_timestamps_in_range e ticker lo hi t
          ≡ ok (map (λ (r : Price). r.timestamp) rows) =
        unfold get_timestamps_in_range in rw p in
      let (o, f) = get_timestamps_in_range_iff ticker lo hi _ run in
      (map (λ (r : Price). r.timestamp) rows, run, o, f)
