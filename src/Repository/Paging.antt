-- ===== src/Repository/Paging.antt =====
-- The pages of a ticker's rows against one list of them: since a ticker and a time name one row, the
-- order of the times leaves the database no choice.
use mathlib.Core.List.Permᴰ
use mathlib.Core.Path.{fun_ext}
use deribit_price_collector.Prelude.{
  ℕ, ◌+◌, String, ◌≡◌, refl, sym, ap, ◌∙◌, false, Option, some, List, [], ◌∷◌, ◌++◌, All, Permᴰ,
  filter, take, drop, take-add, drop-add, arith, str_eq_refl, str_eq, true, str_eq_iff, Bool, none,
  ◌&&◌, suc,
}
use deribit_price_collector.Prelude.Int.{ℤ, ◌<ℤ◌, ◌≤ℤ◌, eq_ℤ, leb_ℤ}
use deribit_price_collector.Prelude.Order.{
  Ordered, Ordered-perm, Ordered-filter, Ordered-unique, Member-perm, All-of_Member, filter-Member,
  Member, Member-filter,
}
use deribit_price_collector.Prelude.Sort.{sort, sort-perm}
use deribit_price_collector.Exceptions.{ok}
use deribit_price_collector.Table.{Price, Table, SortOrder, asc, desc, matches, InOrder}
use deribit_price_collector.Table.Engine.{Engine, IsEngine, Answers}
use deribit_price_collector.Table.Sorting.{before, sort-before-Ordered}
use deribit_price_collector.Table.Unique.{Distinct, IsTable}
use deribit_price_collector.Table.Unique.Member.{Distinct-symm}
use deribit_price_collector.Repository.{get_by_ticker_and_date_range}
use deribit_price_collector.Repository.Pages.{range_stmt, IsPage}

-- A bound on a time, if it is there.
abbrev not_before : Option ℤ → ℤ → Bool
not_before none n = true
not_before (some lo) n = leb_ℤ lo n

abbrev not_after : Option ℤ → ℤ → Bool
not_after none n = true
not_after (some hi) n = leb_ℤ n hi

-- A row of the ticker from the lower bound to the upper one, with both.
abbrev pub in_range : String → Option ℤ → Option ℤ → Price → Bool
in_range ticker lo hi r =
    str_eq r.ticker ticker && (not_before lo r.timestamp && not_after hi r.timestamp)

-- All rows of the ticker within the bounds, sorted by their times.
abbrev pub listing : Table → String → Option ℤ → Option ℤ → SortOrder → List Price
listing t ticker lo hi sorting = sort (before sorting) (filter (in_range ticker lo hi) t)

-- The `limit` of them after the first `offset`.
abbrev pub listed_page : Table → String → Option ℤ → Option ℤ → ℕ → ℕ → SortOrder → List Price
listed_page t ticker lo hi limit offset sorting =
    take limit (drop offset (listing t ticker lo hi sorting))

-- That page, and what a page promises.
abbrev pub IsListedPage :
    Table → String → Option ℤ → Option ℤ → ℕ → ℕ → SortOrder → List Price → Type 0
IsListedPage t ticker lo hi limit offset sorting rows =
    IsPage t ticker lo hi limit sorting rows
    × (rows ≡ listed_page t ticker lo hi limit offset sorting)

-- The conditions of the statement select them.
filter-in_range :
    (e : Engine) (t : Table) (ticker : String) (lo hi : Option ℤ) (limit offset : ℕ) (o : SortOrder)
    → filter (matches (range_stmt e ticker lo hi limit offset o).conditions) t
      ≡ filter (in_range ticker lo hi) t
filter-in_range e t ticker lo hi limit offset o = ap (λ p. filter p t) (fun_ext λ r. same lo hi r)
  where
    same :
        (lo hi : Option ℤ) (r : Price)
        → matches (range_stmt e ticker lo hi limit offset o).conditions r ≡ in_range ticker lo hi r
    same none none r = ground arith
    same (some a) none r = ground arith
    same none (some b) r = ground arith
    same (some a) (some b) r = ground arith

-- Strictly in order.
abbrev Before : SortOrder → Price → Price → Type 0
Before asc a b = a.timestamp <ℤ b.timestamp
Before desc a b = b.timestamp <ℤ a.timestamp

Before-asym : (o : SortOrder) (a b : Price) → Before o a b → Before o b a → ⊥
Before-asym asc a b h k = omega arith
Before-asym desc a b h k = omega arith

Before-of :
    (o : SortOrder) (ticker : String) (a b : Price)
    → a.ticker ≡ ticker
    → b.ticker ≡ ticker
    → InOrder (some o) a b
    → Distinct a b
    → Before o a b
Before-of o ticker a b p q h d =
    let e : str_eq b.ticker a.ticker ≡ true = rw (p, q) (str_eq_refl ticker) in
    apart o h (ground (arith, d.key))
  where
    apart :
        (o : SortOrder) → InOrder (some o) a b → eq_ℤ b.timestamp a.timestamp ≡ false → Before o a b
    apart asc h k = ground arith
    apart desc h k = ground arith

All-Before :
    (o : SortOrder) (ticker : String) (a : Price) (rows : List Price)
    → a.ticker ≡ ticker
    → All (λ r. r.ticker ≡ ticker) rows
    → All (InOrder (some o) a) rows
    → All (Distinct a) rows
    → All (Before o a) rows
All-Before o ticker a [] p q h d = tt
All-Before o ticker a (r ∷ rows) p q h d =
    (Before-of o ticker a r p q.0 h.0 d.0, All-Before o ticker a rows p q.1 h.1 d.1)

Ordered-Before :
    (o : SortOrder) (ticker : String) (rows : List Price)
    → All (λ r. r.ticker ≡ ticker) rows
    → Ordered (InOrder (some o)) rows
    → Ordered Distinct rows
    → Ordered (Before o) rows
Ordered-Before o ticker [] q h d = tt
Ordered-Before o ticker (r ∷ rows) q h d =
    (All-Before o ticker r rows q.0 q.1 h.0 d.0, Ordered-Before o ticker rows q.1 h.1 d.1)

module _ (t : Table) (v : IsTable t) (ticker : String) (lo hi : Option ℤ) (o : SortOrder) where
  abbrev matching : List Price
  matching = filter (in_range ticker lo hi) t

  of_ticker : (r : Price) → in_range ticker lo hi r ≡ true → r.ticker ≡ ticker
  of_ticker r h = (str_eq_iff r.ticker ticker).0 (ground (arith, h))

  -- Any arrangement of the rows that match, in order, is strictly in order.
  arranged-Ordered :
      (rows : List Price)
      → Permᴰ rows matching
      → Ordered (InOrder (some o)) rows
      → Ordered (Before o) rows
  arranged-Ordered rows d h =
      Ordered-Before o ticker rows
        (All-of_Member (λ r. r.ticker ≡ ticker) rows
          (λ r m. of_ticker r (filter-Member _ r t (Member-perm r d m)).1))
        h
        (Ordered-perm Distinct Distinct-symm (Permᴰ.symm d)
          (Ordered-filter Distinct (in_range ticker lo hi) t v))

  arranged_unique :
      (rows : List Price)
      → Permᴰ rows matching
      → Ordered (InOrder (some o)) rows
      → rows ≡ listing t ticker lo hi o
  arranged_unique rows d h =
      let back = sort-perm (before o) matching in
      Ordered-unique (Before o) (Before-asym o) rows (sort (before o) matching)
        (arranged-Ordered rows d h)
        (arranged-Ordered (sort (before o) matching) back (sort-before-Ordered o matching))
        (λ z m. Member-perm z (Permᴰ.symm back) (Member-perm z d m))
        (λ z m. Member-perm z (Permᴰ.symm d) (Member-perm z back m))

  -- A read by ticker and dates returns, if it does not fail, exactly the `limit` rows after the first
  -- `offset` of the one sorted list of all the rows of the ticker within the bounds.
  pub page_of_listing :
      (e : Engine) (limit offset : ℕ) (rows : List Price)
      → IsEngine e
      → get_by_ticker_and_date_range e ticker lo hi limit offset o t ≡ ok rows
      → rows ≡ take limit (drop offset (listing t ticker lo hi o))
  unfolding get_by_ticker_and_date_range
  page_of_listing e limit offset rows law h =
      let a : Answers (range_stmt e ticker lo hi limit offset o) t rows =
        law.answers (range_stmt e ticker lo hi limit offset o) t rows h in
      a.paged
      ∙ ap (λ l. take limit (drop offset l))
          (arranged_unique a.arranged
            (rw (filter-in_range e t ticker lo hi limit offset o) at a.perm) a.ordered)

-- A page of n rows and the page of m rows that starts where it ends are together the page of n + m rows,
-- in the same order: paging through a ticker's rows misses none and shows none twice.
pub pages_compose :
    (e : Engine) (t : Table) (ticker : String) (lo hi : Option ℤ) (o : SortOrder) (n m offset : ℕ)
    (front back whole : List Price)
    → IsEngine e
    → IsTable t
    → get_by_ticker_and_date_range e ticker lo hi n offset o t ≡ ok front
    → get_by_ticker_and_date_range e ticker lo hi m (offset + n) o t ≡ ok back
    → get_by_ticker_and_date_range e ticker lo hi (n + m) offset o t ≡ ok whole
    → whole ≡ front ++ back
pages_compose e t ticker lo hi o n m offset front back whole law v p q r =
    let rows = listing t ticker lo hi o in
    page_of_listing t v ticker lo hi o e (n + m) offset whole law r
    ∙ take-add n m (drop offset rows)
    ∙ sym (λ i.
      page_of_listing t v ticker lo hi o e n offset front law p i
      ++ (page_of_listing t v ticker lo hi o e m (offset + n) back law q
            ∙ ap (take m) (sym (drop-add offset n rows)))
          i)

-- The table has no row of the ticker from one time to the other, with both.
abbrev pub NoRow : Table → String → ℤ → ℤ → Type 0
NoRow t ticker lo hi =
    (q : Price) → Member q t → q.ticker ≡ ticker → lo ≤ℤ q.timestamp → q.timestamp ≤ℤ hi → ⊥

take-empty : (n : ℕ) (rows : List Price) → [] ≡ take (suc n) rows → rows ≡ []
take-empty n [] h = refl
take-empty n (r ∷ rows) h = cc

in_range_of :
    (ticker : String) (lo hi : ℤ) (q : Price)
    → q.ticker ≡ ticker
    → lo ≤ℤ q.timestamp
    → q.timestamp ≤ℤ hi
    → in_range ticker (some lo) (some hi) q ≡ true
in_range_of ticker lo hi q p a b =
    let e : str_eq q.ticker ticker ≡ true = (str_eq_iff q.ticker ticker).1 p in ground (arith, e)

-- A read from the start of a range finds nothing only if the range has no row.
pub first_page-NoRow :
    (e : Engine) (t : Table) (ticker : String) (lo hi : ℤ) (n : ℕ) (o : SortOrder)
    → IsEngine e
    → IsTable t
    → get_by_ticker_and_date_range e ticker (some lo) (some hi) (suc n) 0 o t ≡ ok []
    → NoRow t ticker lo hi
first_page-NoRow e t ticker lo hi n o law v h q m p a b =
    let keep = in_range ticker (some lo) (some hi) in
    let none_left =
      take-empty n _ (page_of_listing t v ticker (some lo) (some hi) o e (suc n) 0 [] law h) in
    let found = Member-filter keep q t m (in_range_of ticker lo hi q p a b) in
    rw none_left at (Member-perm q (Permᴰ.symm (sort-perm (before o) (filter keep t))) found)
