-- ===== src/Repository/Save.antt =====
-- SyncPriceRepository.save_price against the table as a map from tickers and timestamps to prices.
use deribit_price_collector.Prelude.{
  String, ◌≡◌, refl, false, sym, inl, inr, ◌∙◌, Option, none, some, List, [], ◌∷◌, filter, arith,
  Permᴰ,
}
use deribit_price_collector.Prelude.Order.{perm-nil, perm-singleton}
use deribit_price_collector.Prelude.Int.{ℤ}
use deribit_price_collector.Exceptions.{
  Exn, ok, err, err_eq, is_collection_permanent, is_collection_transient, Result-cases, >>=-eq-ok,
}
use deribit_price_collector.Table.{Price, Table, matches, same_key}
use deribit_price_collector.Table.Engine.{Engine, IsEngine}
use deribit_price_collector.Table.Unique.{IsTable, find, option_list, filter-same_key}
use deribit_price_collector.Table.Unique.Write.{
  price_at, put, set_price-IsTable, price_at-set_price, find-set_price, set_price_same,
  set_own_price,
}
use deribit_price_collector.Table.Unique.Insert.{insert-IsTable, price_at-insert, find-insert}
use deribit_price_collector.Repository.{
  key_stmt, new_row, save_found, save_price, scalar_one_or_none,
}

filter-matches_key :
    (e : Engine) (ticker : String) (timestamp : ℤ) (t : Table)
    → filter (matches (key_stmt e ticker timestamp).conditions) t
      ≡ filter (same_key ticker timestamp) t
filter-matches_key e ticker timestamp [] = refl
filter-matches_key e ticker timestamp (r ∷ t) =
    ground (arith, filter-matches_key e ticker timestamp t)

perm-option_list :
    (o : Option Price) {xs : List Price} → Permᴰ xs (option_list o) → xs ≡ option_list o
perm-option_list none d = perm-nil d
perm-option_list (some r) d = perm-singleton d

scalar-option_list : (o : Option Price) → scalar_one_or_none (option_list o) ≡ ok o
scalar-option_list none = refl
scalar-option_list (some r) = refl

module _ (e : Engine) (law : IsEngine e) where
  -- The statement by key answers with the row of the key, if there is one.
  pub execute-key_stmt :
      (ticker : String) (timestamp : ℤ) (t : Table) (rows : List Price)
      → IsTable t
      → e.execute (key_stmt e ticker timestamp) t ≡ ok rows
      → rows ≡ option_list (find ticker timestamp t)
  execute-key_stmt ticker timestamp t rows v h =
      let a = law.answers (key_stmt e ticker timestamp) t rows h in
      a.paged
      ∙ perm-option_list (find ticker timestamp t) (
          rw (← filter-same_key ticker timestamp t v, ← filter-matches_key e ticker timestamp t)
            a.perm)

  -- A valid table never makes `scalar_one_or_none` raise: `save_price` fails only with its query.
  pub save_price_runs :
      (ticker : String) (price timestamp : ℤ) (t : Table) (rows : List Price)
      → IsTable t
      → e.execute (key_stmt e ticker timestamp) t ≡ ok rows
      → save_price e ticker price timestamp t
        ≡ ok (save_found e (find ticker timestamp t) ticker price timestamp t)
  unfolding save_price
  save_price_runs ticker price timestamp t rows v h =
      rw (h, execute-key_stmt ticker timestamp t rows v h, scalar-option_list)

  -- What a save that returned has done, by the row that was there before.
  pub save_price_inv :
      (ticker : String) (price timestamp : ℤ) (t : Table) (out : Price × Table)
      → IsTable t
      → save_price e ticker price timestamp t ≡ ok out
      → out ≡ save_found e (find ticker timestamp t) ticker price timestamp t
  save_price_inv ticker price timestamp t out v h =
      let (rows, p) = ran h in cc (h, save_price_runs ticker price timestamp t rows v p)
    where
      ran :
          save_price e ticker price timestamp t ≡ ok out
          → (rows : List Price) × (e.execute (key_stmt e ticker timestamp) t ≡ ok rows)
      ran q =
          unfold save_price in
          let (rows, p, _) = >>=-eq-ok (e.execute (key_stmt e ticker timestamp) t) _ q in (rows, p)

  save_found-IsTable :
      (o : Option Price) (ticker : String) (price timestamp : ℤ) (t : Table)
      → find ticker timestamp t ≡ o
      → IsTable t
      → IsTable (save_found e o ticker price timestamp t).1
  save_found-IsTable none ticker price timestamp t h v =
      insert-IsTable t (new_row e ticker price timestamp t) v h (law.fresh_id t)
  save_found-IsTable (some r) ticker price timestamp t h v = set_price-IsTable r.id price t v

  save_found-price_at :
      (o : Option Price) (ticker : String) (price timestamp : ℤ) (t : Table)
      → find ticker timestamp t ≡ o
      → IsTable t
      → (a : String) (b : ℤ)
      → price_at (save_found e o ticker price timestamp t).1 a b
        ≡ put (price_at t) ticker timestamp price a b
  save_found-price_at none ticker price timestamp t h v a b =
      price_at-insert t (new_row e ticker price timestamp t) h a b
  save_found-price_at (some r) ticker price timestamp t h v a b =
      price_at-set_price ticker timestamp price r t v h a b

  -- `save_price` keeps the constraints of the table, and on the table as a map it sets the price
  -- under its ticker and timestamp and changes no other entry.
  pub save_price-put :
      (ticker : String) (price timestamp : ℤ) (t : Table) (out : Price × Table)
      → IsTable t
      → save_price e ticker price timestamp t ≡ ok out
      → IsTable out.1
        × ((a : String) (b : ℤ) → price_at out.1 a b ≡ put (price_at t) ticker timestamp price a b)
  save_price-put ticker price timestamp t out v h =
      let found = find ticker timestamp t in
      rw (save_price_inv ticker price timestamp t out v h) (
        save_found-IsTable found ticker price timestamp t refl v,
        save_found-price_at found ticker price timestamp t refl v,
      )

  save_found-find :
      (o : Option Price) (ticker : String) (price timestamp : ℤ) (t : Table)
      → find ticker timestamp t ≡ o
      → IsTable t
      → find ticker timestamp (save_found e o ticker price timestamp t).1
        ≡ some (save_found e o ticker price timestamp t).0
  save_found-find none ticker price timestamp t h v =
      find-insert t (new_row e ticker price timestamp t) h
  save_found-find (some r) ticker price timestamp t h v =
      find-set_price ticker timestamp price r t v h

  save_found-price :
      (o : Option Price) (ticker : String) (price timestamp : ℤ) (t : Table)
      → (save_found e o ticker price timestamp t).0.price ≡ price
  save_found-price none ticker price timestamp t = refl
  save_found-price (some r) ticker price timestamp t = refl

  -- `save_price` fails only if its query does. Otherwise it returns the row that the table then has
  -- under the ticker and the timestamp, with the new price; the constraints of the table hold; and
  -- on the table as a map it has set the price under that key and changed no other entry.
  pub save_price_lem :
      (ticker : String) (price timestamp : ℤ) (t : Table) (rows : List Price)
      → IsTable t
      → e.execute (key_stmt e ticker timestamp) t ≡ ok rows
      → (out : Price × Table) × (save_price e ticker price timestamp t ≡ ok out)
        × IsTable out.1
        × (find ticker timestamp out.1 ≡ some out.0)
        × (out.0.price ≡ price)
        × ((a : String) (b : ℤ) → price_at out.1 a b ≡ put (price_at t) ticker timestamp price a b)
  save_price_lem ticker price timestamp t rows v h =
      let found = find ticker timestamp t in
      (
        save_found e found ticker price timestamp t,
        save_price_runs ticker price timestamp t rows v h,
        save_found-IsTable found ticker price timestamp t refl v,
        save_found-find found ticker price timestamp t refl v,
        save_found-price found ticker price timestamp t,
        save_found-price_at found ticker price timestamp t refl v,
      )

  -- Saving the same price again returns the same row and leaves the table as it is: repeated
  -- collection of one point stores it once.
  pub save_price_idem :
      (ticker : String) (price timestamp : ℤ) (t : Table) (out again : Price × Table)
      → IsTable t
      → save_price e ticker price timestamp t ≡ ok out
      → save_price e ticker price timestamp out.1 ≡ ok again
      → again ≡ out
  save_price_idem ticker price timestamp t out again v h k =
      let found = find ticker timestamp t in
      let p : out ≡ save_found e found ticker price timestamp t =
        save_price_inv ticker price timestamp t out v h in
      let there : find ticker timestamp out.1 ≡ some out.0 =
        rw p (save_found-find found ticker price timestamp t refl v) in
      let same : out.0.price ≡ price = rw p (save_found-price found ticker price timestamp t) in
      let v' = (save_price-put ticker price timestamp t out v h).0 in
      save_price_inv ticker price timestamp out.1 again v' k
      ∙ rw there (λ i. (
        set_own_price out.0 price same i,
        set_price_same ticker timestamp price out.0 out.1 v' there same i,
      ))

  -- A save that raised has raised what its query raised: none of the collector's own exceptions.
  pub save_price_foreign :
      (ticker : String) (price timestamp : ℤ) (t : Table) (x : Exn)
      → IsTable t
      → save_price e ticker price timestamp t ≡ err x
      → (is_collection_permanent x ≡ false) × (is_collection_transient x ≡ false)
  save_price_foreign ticker price timestamp t x v h =
      elim (Result-cases (e.execute (key_stmt e ticker timestamp) t)) [
        | inl (rows, p) ↦ cc (h, save_price_runs ticker price timestamp t rows v p)
        | inr (y, p) ↦ rw (raised y p) (law.foreign (key_stmt e ticker timestamp) t y p)
      ]
    where
      raised : (y : Exn) → e.execute (key_stmt e ticker timestamp) t ≡ err y → x ≡ y
      raised y p = unfold save_price in err_eq (sym h ∙ rw p)
