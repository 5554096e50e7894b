-- ===== src/Tasks/Reconcile/Dense.antt =====
-- A chart without a gap, and the rows after its points have been stored.
use deribit_price_collector.Prelude.{
  String, ◌≡◌, refl, sym, ◌∙◌, ◌⊎◌, inl, inr, Bool-cases, Option, none, some, List, [], ◌∷◌, ◌++◌,
  str_eq, str_eq_iff, str_eq_refl, arith,
}
use deribit_price_collector.Prelude.Int.{ℤ, eq_ℤ_iff, ◌-ℤ◌, ◌≤ℤ◌, ◌<ℤ◌, ltb_ℤ, leb_ℤ, int_laws}
use deribit_price_collector.Prelude.Order.{Member}
use deribit_price_collector.Exceptions.{ok}
use deribit_price_collector.Config.{Config}
use deribit_price_collector.Providers.{HistoryRange}
use deribit_price_collector.Table.{Price, Table}
use deribit_price_collector.Table.Unique.{IsTable, find}
use deribit_price_collector.Table.Unique.Write.{price_at, price_of, put}
use deribit_price_collector.Table.Unique.Member.{find-Member, Member-find}
use deribit_price_collector.Repository.Queries.{HasPrice}
use deribit_price_collector.Repository.Latest.{IsLatest}
use deribit_price_collector.Client.{Http, get_index_chart_data}
use deribit_price_collector.Tasks.Fetch.Loop.{Point, View, put_all}
use deribit_price_collector.Tasks.Backfill.Loop.{history, chart_of, points_of}
use deribit_price_collector.Tasks.Reconcile.Health.{IsHealthy, Continued, StoredIn}
use deribit_price_collector.Tasks.Points.{put_all_keeps}

-- A chart without a gap: it has a point that is recent enough, and after each time in the window there is
-- a point within `max_gap`, unless the window ends before.
pub record IsDense (points : List (ℤ × ℤ)) (lo now max_gap : ℤ) : Type 0 where
  pub last_price : ℤ
  pub last : ℤ
  pub has_last : Member (last_price, last) points
  pub recent : (now -ℤ last) ≤ℤ max_gap
  pub next :
      (n : ℤ)
      → lo ≤ℤ n
      → n ≤ℤ now
      → ((now -ℤ n) ≤ℤ max_gap)
        ⊎ ((price : ℤ) × (m : ℤ) × Member (price, m) points
            × (n <ℤ m)
            × (m ≤ℤ now)
            × ((m -ℤ n) ≤ℤ max_gap))

-- A point that was put is there afterwards, with its price or a later one's.
pub put_all_has :
    (points : List Point) (view : View) (ticker : String) (timestamp price : ℤ)
    → Member (ticker, price, timestamp) points
    → (after : ℤ) × (put_all points view ticker timestamp ≡ some after)
put_all_has [] view ticker timestamp price m = absurd m
put_all_has ((a, p, b) ∷ points) view ticker timestamp price (inl e) =
    let q : ◌≡◌ {A = Point} (ticker, price, timestamp) (a, p, b) = e in
    let f : ticker ≡ a = λ i. (q i).0 in
    let g : timestamp ≡ b = λ i. (q i).2 in
    put_all_keeps points (put view a b p) ticker timestamp p
      (rw (f, g, str_eq_refl a, (eq_ℤ_iff b b).1 refl))
put_all_has ((a, p, b) ∷ points) view ticker timestamp price (inr m) =
    put_all_has points (put view a b p) ticker timestamp price m

Member-points_of :
    (ticker : String) (price timestamp : ℤ) (points : List (ℤ × ℤ))
    → Member (price, timestamp) points
    → Member (ticker, price, timestamp) (points_of ticker points)
Member-points_of ticker price timestamp [] m = absurd m
Member-points_of ticker price timestamp ((p, b) ∷ points) (inl e) =
    inl (λ i. (ticker, (e i).0, (e i).1))
Member-points_of ticker price timestamp ((p, b) ∷ points) (inr m) =
    inr (Member-points_of ticker price timestamp points m)

Member-left : (a : Point) (xs ys : List Point) → Member a xs → Member a (xs ++ ys)
Member-left a [] ys m = absurd m
Member-left a (x ∷ xs) ys (inl e) = inl e
Member-left a (x ∷ xs) ys (inr m) = inr (Member-left a xs ys m)

Member-right : (a : Point) (xs ys : List Point) → Member a ys → Member a (xs ++ ys)
Member-right a [] ys m = m
Member-right a (x ∷ xs) ys m = inr (Member-right a xs ys m)

-- The points of a ticker's chart are in the history of the tickers.
pub Member-history :
    (c : Config) (http : Http) (r : HistoryRange) (tickers : List String) (ticker : String)
    (points : List (ℤ × ℤ)) (price timestamp : ℤ)
    → Member ticker tickers
    → get_index_chart_data c http ticker r ≡ ok points
    → Member (price, timestamp) points
    → Member (ticker, price, timestamp) (history c http r tickers)
Member-history c http r [] ticker points price timestamp i h m = absurd i
Member-history c http r (a ∷ tickers) ticker points price timestamp (inl e) h m =
    Member-left (ticker, price, timestamp) (chart_of a (get_index_chart_data c http a r)) _
      (rw (← e, h) (Member-points_of ticker price timestamp points m))
Member-history c http r (a ∷ tickers) ticker points price timestamp (inr i) h m =
    Member-right (ticker, price, timestamp) (chart_of a (get_index_chart_data c http a r)) _
      (Member-history c http r tickers ticker points price timestamp i h m)

-- No stored time of the ticker in the window is later than n, or one is.
abbrev NotAfter : String → ℤ → ℤ → Price → Type 0
NotAfter ticker n hi r = r.ticker ≡ ticker → r.timestamp ≤ℤ hi → r.timestamp ≤ℤ n

abbrev IsAfter : String → ℤ → ℤ → Price → Type 0
IsAfter ticker n hi r = (r.ticker ≡ ticker) × (r.timestamp ≤ℤ hi) × (n <ℤ r.timestamp)

earlier_or_later :
    (ticker : String) (n hi : ℤ) (r : Price) → NotAfter ticker n hi r ⊎ IsAfter ticker n hi r
earlier_or_later ticker n hi r = elim (Bool-cases (str_eq r.ticker ticker)) [
  | inr e ↦ inl (λ p h. cc (sym e ∙ (str_eq_iff r.ticker ticker).1 p))
  | inl e ↦ elim (Bool-cases (leb_ℤ r.timestamp hi)) [
    | inr f ↦ inl (λ p h. absurd (ground (arith, f, h)))
    | inl f ↦ elim (Bool-cases (ltb_ℤ n r.timestamp)) [
      | inr g ↦ inl (λ p h. ground (arith, g))
      | inl g ↦ inr ((str_eq_iff r.ticker ticker).0 e, ground (arith, f), ground (arith, g))
    ]
  ]
]

all_earlier :
    (q : Price) (t : Table) (ticker : String) (n hi : ℤ)
    → NotAfter ticker n hi q
    → ((r : Price) → Member r t → NotAfter ticker n hi r)
    → (r : Price) → Member r (q ∷ t)
    → NotAfter ticker n hi r
all_earlier q t ticker n hi e f r (inl h) = rw h e
all_earlier q t ticker n hi e f r (inr m) = f r m

later_stored :
    (t : Table) (ticker : String) (n hi : ℤ)
    → ((r : Price) → Member r t → NotAfter ticker n hi r)
      ⊎ ((r : Price) × Member r t × IsAfter ticker n hi r)
later_stored [] ticker n hi = inl (λ r m. absurd m)
later_stored (q ∷ t) ticker n hi = elim (earlier_or_later ticker n hi q) [
  | inr l ↦ inr (q, inl refl, l)
  | inl e ↦ elim (later_stored t ticker n hi) [
    | inr (r, m, l) ↦ inr (r, inr m, l)
    | inl f ↦ inl (all_earlier q t ticker n hi e f)
  ]
]

pub HasPrice-of :
    (t : Table) (ticker : String) (n : ℤ) (price : ℤ)
    → price_at t ticker n ≡ some price
    → HasPrice t ticker n
HasPrice-of t ticker n price h = go (find ticker n t) refl h
  where
    go : (o : Option Price) → find ticker n t ≡ o → price_of o ≡ some price → HasPrice t ticker n
    go none e h = cc
    go (some r) e h = (r, e)

pub HasPrice-Member :
    (t : Table) (ticker : String) (r : Price)
    → IsTable t
    → Member r t
    → r.ticker ≡ ticker
    → HasPrice t ticker r.timestamp
HasPrice-Member t ticker r v m e = rw (← e) (r, Member-find r t v m)

module _ (t : Table) (v : IsTable t) (ticker : String) (lo now max_gap : ℤ) (points : List (ℤ × ℤ))
    (has : (price n : ℤ) → Member (price, n) points → HasPrice t ticker n)
    (dense : IsDense points lo now max_gap) where
  dense-Continued : Continued max_gap (StoredIn t ticker lo now)
  dense-Continued n (a, b, h) = elim (dense.next n a b) [
    | inr (price, m, i, p, q, g) ↦ inr (m, (omega int_laws, q, has price m i), p, g)
    | inl near ↦ elim (later_stored t ticker n now) [
      | inr (r, i, (e, q, p)) ↦
          inr
            (r.timestamp, (omega int_laws, q, HasPrice-Member t ticker r v i e), p, omega int_laws)
      | inl f ↦ inl (λ m k. last_of f m k)
    ]
  ]
    where
      last_of :
          ((r : Price) → Member r t → NotAfter ticker n now r)
          → (m : ℤ) → StoredIn t ticker lo now m
          → m ≤ℤ n
      last_of f m (x, y, (r, p)) =
          let (i, e, q) = find-Member ticker m t r p in rw (← q) (f r i e (rw q y))

  pub dense-IsHealthy :
      (found : Option Price) → IsLatest t ticker found → IsHealthy t ticker lo now max_gap
  dense-IsHealthy none l =
      let (r, p) = has dense.last_price dense.last dense.has_last in
      let (i, e, q) = find-Member ticker dense.last t r p in absurd (l r i e)
  dense-IsHealthy (some newest) l =
      let (r, p) = has dense.last_price dense.last dense.has_last in
      let (i, e, q) = find-Member ticker dense.last t r p in
      let newer : r.timestamp ≤ℤ newest.timestamp = l.2 r i e in
      record {
        newest = newest;
        latest = l;
        fresh = omega (int_laws, rw q at newer, dense.recent);
        continued = dense-Continued;
      }
