-- ===== src/Repository/Latest.antt =====
-- The newest row of a ticker, as the API and the reconciliation ask for it.
use deribit_price_collector.Prelude.{
  String, ◌≡◌, refl, sym, ◌∙◌, ◌≢◌, true, List, [], ◌∷◌, Option, none, some, inl, inr, arith,
  str_eq_iff, head?, filter, Permᴰ, map, take,
}
use mathlib.Core.List.Permᴰ
use deribit_price_collector.Prelude.Int.{ℤ, ◌≤ℤ◌}
use deribit_price_collector.Prelude.Order.{
  Ordered, Member, Member-perm, All-member, Member-filter, filter-Member,
}
use deribit_price_collector.Exceptions.{ok, ok_eq, >>=-eq-ok}
use deribit_price_collector.Table.{Price, Table, matches, desc, InOrder}
use deribit_price_collector.Table.Engine.{Engine, IsEngine}
use deribit_price_collector.Repository.{
  get_latest_timestamp, get_latest_by_ticker, latest_stmt, scalar_one_or_none,
}

-- The row is the newest of its ticker; `none` if the ticker has no row.
abbrev pub IsLatest : Table → String → Option Price → Type 0
IsLatest t ticker none = (q : Price) → Member q t → q.ticker ≢ ticker
IsLatest t ticker (some r) =
    Member r t
    × (r.ticker ≡ ticker)
    × ((q : Price) → Member q t → q.ticker ≡ ticker → q.timestamp ≤ℤ r.timestamp)

abbrev pub time_of : Option Price → Option ℤ
time_of none = none
time_of (some r) = some r.timestamp

of_ticker :
    (e : Engine) (ticker : String) (q : Price)
    → q.ticker ≡ ticker
    → matches (latest_stmt e ticker).conditions q ≡ true
of_ticker e ticker q p = ground (arith, str_eq_iff q.ticker ticker)

ticker_of :
    (e : Engine) (ticker : String) (q : Price)
    → matches (latest_stmt e ticker).conditions q ≡ true
    → q.ticker ≡ ticker
ticker_of e ticker q p = ground (arith, str_eq_iff q.ticker ticker)

IsLatest-head :
    (e : Engine) (ticker : String) (t : Table) (arranged : List Price)
    → Permᴰ arranged (filter (matches (latest_stmt e ticker).conditions) t)
    → Ordered (InOrder (some desc)) arranged
    → IsLatest t ticker (head? arranged)
IsLatest-head e ticker t [] d o = λ q m p.
    Member-perm q (Permᴰ.symm d)
      (Member-filter (matches (latest_stmt e ticker).conditions) q t m (of_ticker e ticker q p))
IsLatest-head e ticker t (r ∷ rest) d o =
    let test = matches (latest_stmt e ticker).conditions in
    let (m, h) = filter-Member test r t (Member-perm r d (inl refl)) in
    (
      m,
      ticker_of e ticker r h,
      λ q n p.
          newest q
            (Member-perm q (Permᴰ.symm d) (Member-filter test q t n (of_ticker e ticker q p))),
    )
  where
    newest : (q : Price) → Member q (r ∷ rest) → q.timestamp ≤ℤ r.timestamp
    newest q (inl p) = rw p (omega arith)
    newest q (inr n) = All-member (λ x. x.timestamp ≤ℤ r.timestamp) q rest o.0 n

head?-take : (rows : List Price) → head? (take 1 rows) ≡ head? rows
head?-take [] = refl
head?-take (r ∷ rows) = refl

scalar-take :
    (rows : List Price)
    → scalar_one_or_none (map (λ (r : Price). r.timestamp) (take 1 rows))
      ≡ ok (time_of (head? rows))
scalar-take [] = refl
scalar-take (r ∷ rows) = refl

module _ (e : Engine) (law : IsEngine e) (t : Table) (ticker : String) where
  -- `get_latest_by_ticker` fails only if its query does, and otherwise returns a newest row of the
  -- ticker, or `None` if it has no row.
  pub get_latest_by_ticker_lem :
      (rows : List Price)
      → e.execute (latest_stmt e ticker) t ≡ ok rows
      → (found : Option Price) × (get_latest_by_ticker e ticker t ≡ ok found)
        × IsLatest t ticker found
  unfolding get_latest_by_ticker
  get_latest_by_ticker_lem rows p =
      let a = law.answers (latest_stmt e ticker) t rows p in
      (
        head? a.arranged,
        rw (p, a.paged, head?-take a.arranged),
        IsLatest-head e ticker t a.arranged a.perm a.ordered,
      )

  -- `get_latest_timestamp` fails only if its query does, and otherwise returns the time of a newest
  -- row of the ticker, or `None` if it has no row.
  pub get_latest_timestamp_lem :
      (rows : List Price)
      → e.execute (latest_stmt e ticker) t ≡ ok rows
      → (found : Option Price) × (get_latest_timestamp e ticker t ≡ ok (time_of found))
        × IsLatest t ticker found
  unfolding get_latest_timestamp
  get_latest_timestamp_lem rows p =
      let a = law.answers (latest_stmt e ticker) t rows p in
      (
        head? a.arranged,
        rw (p, a.paged) (scalar-take a.arranged),
        IsLatest-head e ticker t a.arranged a.perm a.ordered,
      )

  pub get_latest_timestamp_inv :
      (latest : Option ℤ)
      → get_latest_timestamp e ticker t ≡ ok latest
      → (found : Option Price) × (time_of found ≡ latest) × IsLatest t ticker found
  unfolding get_latest_timestamp
  get_latest_timestamp_inv latest h =
      let (rows, p, q) = >>=-eq-ok (e.execute (latest_stmt e ticker) t) _ h in
      let a = law.answers (latest_stmt e ticker) t rows p in
      (
        head? a.arranged,
        ok_eq (sym (scalar-take a.arranged) ∙ rw a.paged at q),
        IsLatest-head e ticker t a.arranged a.perm a.ordered,
      )
