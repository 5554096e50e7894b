-- ===== src/Repository/Aggregates/Laws.antt =====
-- What the aggregate reads of app/repositories.py return.
use deribit_price_collector.Prelude.{
  ℕ, String, ◌≡◌, refl, sym, ap, ◌∙◌, ◌≢◌, true, Option, none, some, List, [], ◌∷◌, map, length,
  Bool-cases, false, arith, str_eq, str_eq_iff, inl, inr,
}
use deribit_price_collector.Prelude.Int.{◌≤ℤ◌, leb_ℤ, int_laws, eq_of_parts}
use deribit_price_collector.Prelude.Order.{
  Member, Member-map, map-Member, filter-Member, Member-filter,
}
use deribit_price_collector.Prelude.Dict.{
  Dict, dict_of, lookup, lookup-dict_of, lookup-dict_of-none,
}
use deribit_price_collector.Exceptions.{ok, ok_eq, >>=-eq-ok}
use deribit_price_collector.Table.{Price, Table}
use deribit_price_collector.Table.Unique.{IsTable, find}
use deribit_price_collector.Table.Unique.Member.{Member-find}
use deribit_price_collector.Table.Unique.Write.{some_eq}
use deribit_price_collector.Repository.Latest.{IsLatest}
use deribit_price_collector.Repository.Aggregates.{
  Reports, IsReports, rows_of, get_counts_by_ticker, get_latest_prices_by_ticker,
}

-- The number of a ticker's rows, if it has any.
abbrev pub IsCount : Table → String → Option ℕ → Type 0
IsCount t ticker none = (r : Price) → Member r t → r.ticker ≢ ticker
IsCount t ticker (some n) =
    (n ≡ length (rows_of ticker t)) × ((r : Price) × Member r t × (r.ticker ≡ ticker))

member_of :
    (ticker : String) (r : Price) (t : Table)
    → Member r (rows_of ticker t)
    → Member r t × (r.ticker ≡ ticker)
member_of ticker r t m =
    let (n, h) = filter-Member (λ q. str_eq q.ticker ticker) r t m in
    (n, (str_eq_iff r.ticker ticker).0 h)

of_member :
    (ticker : String) (r : Price) (t : Table)
    → Member r t
    → r.ticker ≡ ticker
    → Member r (rows_of ticker t)
of_member ticker r t m p =
    Member-filter (λ q. str_eq q.ticker ticker) r t m ((str_eq_iff r.ticker ticker).1 p)

-- A newest row of the ticker exists if it has any.
newest_of : (ticker : String) (t : Table) → (found : Option Price) × IsLatest t ticker found
newest_of ticker [] = (none, λ q m p. m)
newest_of ticker (q ∷ t) =
    let (found, h) = newest_of ticker t in
    elim (Bool-cases (str_eq q.ticker ticker)) [
      | inl e ↦ better found h ((str_eq_iff q.ticker ticker).0 e)
      | inr e ↦ other found h (λ p. cc (e, (str_eq_iff q.ticker ticker).1 p))
    ]
  where
    better :
        (found : Option Price)
        → IsLatest t ticker found
        → q.ticker ≡ ticker
        → (newest : Option Price) × IsLatest (q ∷ t) ticker newest
    better none h p = (some q, (inl refl, p, first))
      where
        first : (x : Price) → Member x (q ∷ t) → x.ticker ≡ ticker → x.timestamp ≤ℤ q.timestamp
        first x (inl e) k = rw e (omega arith)
        first x (inr m) k = absurd (h x m k)
    better (some r) h p = elim (Bool-cases (leb_ℤ r.timestamp q.timestamp)) [
      | inl e ↦ (some q, (inl refl, p, later e))
      | inr e ↦ (some r, (inr h.0, h.1, kept e))
    ]
      where
        later :
            leb_ℤ r.timestamp q.timestamp ≡ true
            → (x : Price) → Member x (q ∷ t)
            → x.ticker ≡ ticker
            → x.timestamp ≤ℤ q.timestamp
        later e x (inl k) l = rw k (omega arith)
        later e x (inr m) l = let a = h.2 x m l in ground arith

        kept :
            leb_ℤ r.timestamp q.timestamp ≡ false
            → (x : Price) → Member x (q ∷ t)
            → x.ticker ≡ ticker
            → x.timestamp ≤ℤ r.timestamp
        kept e x (inl k) l = rw k (ground arith)
        kept e x (inr m) l = h.2 x m l

    other :
        (found : Option Price)
        → IsLatest t ticker found
        → q.ticker ≢ ticker
        → (newest : Option Price) × IsLatest (q ∷ t) ticker newest
    other none h p = (none, miss)
      where
        miss : (x : Price) → Member x (q ∷ t) → x.ticker ≢ ticker
        miss x (inl e) k = p (sym (ap (λ z. z.ticker) e) ∙ k)
        miss x (inr m) k = h x m k
    other (some r) h p = (some r, (inr h.0, h.1, still))
      where
        still : (x : Price) → Member x (q ∷ t) → x.ticker ≡ ticker → x.timestamp ≤ℤ r.timestamp
        still x (inl e) k = absurd (p (sym (ap (λ z. z.ticker) e) ∙ k))
        still x (inr m) k = h.2 x m k

-- A ticker and a time name one row, so there is one newest row.
IsLatest-unique :
    (t : Table) (r q : Price)
    → IsTable t
    → Member r t
    → Member q t
    → r.ticker ≡ q.ticker
    → r.timestamp ≤ℤ q.timestamp
    → q.timestamp ≤ℤ r.timestamp
    → r ≡ q
IsLatest-unique t r q v m n p h k =
    let e : r.timestamp ≡ q.timestamp = eq_of_parts r.timestamp q.timestamp (omega int_laws) in
    some_eq (sym (Member-find r t v m) ∙ (λ i. find (p i) (e i) t) ∙ Member-find q t v n)

abbrev pair : Price → String × Price
pair price = (price.ticker, price)

module _ (d : Reports) (law : IsReports d) (t : Table) where
  -- The counts have the number of its rows for each ticker that has any, and no other entry.
  pub get_counts_by_ticker_lem :
      (counts : Dict ℕ)
      → get_counts_by_ticker d t ≡ ok counts
      → (ticker : String) → IsCount t ticker (lookup ticker counts)
  unfolding get_counts_by_ticker
  get_counts_by_ticker_lem counts h ticker =
      let (groups, p, k) = >>=-eq-ok (d.counts t) _ h in
      rw (← ok_eq k) (entry groups p (newest_of ticker t))
    where
      entry :
          (groups : List (String × ℕ))
          → d.counts t ≡ ok groups
          → (found : Option Price) × IsLatest t ticker found
          → IsCount t ticker (lookup ticker (dict_of groups))
      entry groups p (none, miss) =
          rw
            (lookup-dict_of-none ticker groups
              (λ n m. let (e, (r, u, q)) = (law.grouped t groups ticker n p).0 m in miss r u q))
            miss
      entry groups p (some r, (m, q, newest)) =
          rw
            (lookup-dict_of ticker (length (rows_of ticker t)) groups
              (λ n u. ((law.grouped t groups ticker n p).0 u).0)
              ((law.grouped t groups ticker _ p).1 (refl, (r, m, q))))
            (refl, (r, m, q))

  -- The latest prices have a newest row for each ticker that has any, and no other entry.
  pub get_latest_prices_by_ticker_lem :
      (latest : Dict Price)
      → IsTable t
      → get_latest_prices_by_ticker d t ≡ ok latest
      → (ticker : String) → IsLatest t ticker (lookup ticker latest)
  unfolding get_latest_prices_by_ticker
  get_latest_prices_by_ticker_lem latest v h ticker =
      let (rows, p, k) = >>=-eq-ok (d.latest t) _ h in
      rw (← ok_eq k) (entry rows p (newest_of ticker t))
    where
      entry :
          (rows : List Price)
          → d.latest t ≡ ok rows
          → (found : Option Price) × IsLatest t ticker found
          → IsLatest t ticker (lookup ticker (dict_of (map pair rows)))
      entry rows p (none, miss) =
          rw
            (lookup-dict_of-none ticker (map pair rows) (λ w m.
              let (x, n, e) = map-Member pair (ticker, w) rows m in
              miss x ((law.joined t rows x p).0 n).0 (sym (ap (λ z. z.0) e))))
            miss
      entry rows p (some r, (m, q, newest)) =
          rw
            (lookup-dict_of ticker r (map pair rows)
              (λ w u.
                let (x, n, e) = map-Member pair (ticker, w) rows u in
                let (s, last) = (law.joined t rows x p).0 n in
                let a : ticker ≡ x.ticker = ap (λ z. z.0) e in
                ap (λ z. z.1) e
                ∙ IsLatest-unique t x r v s m (sym a ∙ sym q) (newest x s (sym a))
                    (last r m (q ∙ a)))
              (rw (← q) (
                Member-map pair r rows
                  ((law.joined t rows r p).1 (m, λ x n e. newest x n (e ∙ q))))))
            (m, q, newest)
