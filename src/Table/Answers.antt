-- ===== src/Table/Answers.antt =====
-- What every answer of the database has, whatever the arrangement that it chose: only rows that
-- match, in the order asked for, and all of them where the statement has no limit.
use deribit_price_collector.Prelude.{
  ℕ, zero, suc, ◌≡◌, true, Option, none, some, List, [], ◌∷◌, All, take, drop, arith, ◌≤◌, length,
}
use mathlib.Core.List.Permᴰ
use deribit_price_collector.Prelude.Order.{
  Ordered, Ordered-perm, Ordered-filter, Member, Member-perm, All-perm, All-filter, All-of_Member,
  Member-filter, filter-Member,
}
use deribit_price_collector.Table.{Price, Table, Select, matches, page, InOrder}
use deribit_price_collector.Table.Engine.{Answers}

module _ {κ} (P : Price → Type κ) where
  All-take : (n : ℕ) (rows : List Price) → All P rows → All P (take n rows)
  All-take zero rows h = tt
  All-take (suc n) [] h = tt
  All-take (suc n) (r ∷ rows) h = (h.0, All-take n rows h.1)

  All-drop : (n : ℕ) (rows : List Price) → All P rows → All P (drop n rows)
  All-drop zero rows h = h
  All-drop (suc n) [] h = tt
  All-drop (suc n) (r ∷ rows) h = All-drop n rows h.1

  pub All-page :
      (limit : Option ℕ) (offset : ℕ) (rows : List Price)
      → All P rows
      → All P (page limit offset rows)
  All-page none offset rows h = All-drop offset rows h
  All-page (some limit) offset rows h = All-take limit _ (All-drop offset rows h)

module _ {κ} (R : Price → Price → Type κ) where
  Ordered-take : (n : ℕ) (rows : List Price) → Ordered R rows → Ordered R (take n rows)
  Ordered-take zero rows h = tt
  Ordered-take (suc n) [] h = tt
  Ordered-take (suc n) (r ∷ rows) h = (All-take (R r) n rows h.0, Ordered-take n rows h.1)

  Ordered-drop : (n : ℕ) (rows : List Price) → Ordered R rows → Ordered R (drop n rows)
  Ordered-drop zero rows h = h
  Ordered-drop (suc n) [] h = tt
  Ordered-drop (suc n) (r ∷ rows) h = Ordered-drop n rows h.1

  pub Ordered-page :
      (limit : Option ℕ) (offset : ℕ) (rows : List Price)
      → Ordered R rows
      → Ordered R (page limit offset rows)
  Ordered-page none offset rows h = Ordered-drop offset rows h
  Ordered-page (some limit) offset rows h = Ordered-take limit _ (Ordered-drop offset rows h)

length-take_le : (n : ℕ) (rows : List Price) → length (take n rows) ≤ n
length-take_le zero rows = omega arith
length-take_le (suc n) [] = omega arith
length-take_le (suc n) (r ∷ rows) = omega (arith, length-take_le n rows)

-- A row of the table that matches.
pub record IsMatch (q : Select) (t : Table) (r : Price) : Type 0 where
  pub stored : Member r t
  pub matching : matches q.conditions r ≡ true

module _ (q : Select) (t : Table) (rows : List Price) (a : Answers q t rows) where
  pub All-answer : All (IsMatch q t) rows
  All-answer = rw a.paged (
      All-page (IsMatch q t) q.limit q.offset a.arranged (
        All-perm (IsMatch q t) (Permᴰ.symm a.perm) (
          All-of_Member (IsMatch q t) _ λ r m.
            let (s, h) = filter-Member (matches q.conditions) r t m in
            record { stored = s; matching = h })))

  -- A property of all rows of the table holds of all rows of an answer, also pairwise.
  pub All-answer_of {κ} : (P : Price → Type κ) → All P t → All P rows
  All-answer_of P h = rw a.paged (
      All-page P q.limit q.offset a.arranged
        (All-perm P (Permᴰ.symm a.perm) (All-filter P (matches q.conditions) t h)))

  pub Ordered-answer : Ordered (InOrder q.order) rows
  Ordered-answer = rw a.paged (Ordered-page (InOrder q.order) q.limit q.offset a.arranged a.ordered)

  pub answer_complete :
      (r : Price)
      → q.limit ≡ none
      → q.offset ≡ 0
      → Member r t
      → matches q.conditions r ≡ true
      → Member r rows
  answer_complete r l o m h =
      rw (a.paged, l, o)
        (Member-perm r (Permᴰ.symm a.perm) (Member-filter (matches q.conditions) r t m h))

  pub length-answer : (n : ℕ) → q.limit ≡ some n → length rows ≤ n
  length-answer n l = rw (a.paged, l) (length-take_le n _)

  -- A symmetric relation between the rows of the table holds between those of an answer: with
  -- `Distinct`, no page shows a row twice.
  pub Ordered-answer_of {κ} :
      (R : Price → Price → Type κ) → ((x y : Price) → R x y → R y x) → Ordered R t → Ordered R rows
  Ordered-answer_of R symm h = rw a.paged (
      Ordered-page R q.limit q.offset a.arranged
        (Ordered-perm R symm (Permᴰ.symm a.perm) (Ordered-filter R (matches q.conditions) t h)))
