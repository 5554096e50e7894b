-- ===== src/Tests/Memory.antt =====
-- A database in memory that answers as SQL says, for the witnesses: it filters, sorts by insertion
-- and cuts out the page; it never fails, and takes the next number above all ids.
use mathlib.Core.List.Permᴰ
use deribit_price_collector.Prelude.{
  ℕ, ◌≤◌, ◌+◌, ◌≡◌, refl, sym, false, Option, none, some, List, [], ◌∷◌, Permᴰ, filter, All, arith,
  ◌==◌,
}
use deribit_price_collector.Prelude.Order.{Ordered}
use deribit_price_collector.Prelude.Sort.{sort, sort-perm}
use deribit_price_collector.Table.Sorting.{before, sort-before-Ordered}
use deribit_price_collector.Exceptions.{ok, ok_eq}
use deribit_price_collector.Table.{Price, Table, Select, SortOrder, matches, page, InOrder}
use deribit_price_collector.Tasks.Fetch.Laws.{Responds}
use deribit_price_collector.Table.Engine.{Engine, IsEngine}

arrange : Option SortOrder → List Price → List Price
arrange none rows = rows
arrange (some o) rows = sort (before o) rows

unordered : (rows : List Price) → Ordered (InOrder none) rows
unordered [] = tt
unordered (r ∷ rows) = (each r rows, unordered rows)
  where
    each : (r : Price) (rows : List Price) → All (InOrder none r) rows
    each r [] = tt
    each r (q ∷ rows) = (tt, each r rows)

above : Table → ℕ
above [] = 1
above (r ∷ t) = r.id + above t + 1

unfoldable pub memory : Engine
unfolding before arrange above
memory = record {
  execute = λ q t. ok (page q.limit q.offset (arrange q.order (filter (matches q.conditions) t)));
  commit = λ t. ok tt;
  new_id = above;
  created_at = λ t. 0;
}

arrange-Answers :
    (q : Select) (t : Table) (o : Option SortOrder)
    → q.order ≡ o
    → Permᴰ (arrange o (filter (matches q.conditions) t)) (filter (matches q.conditions) t)
      × Ordered (InOrder o) (arrange o (filter (matches q.conditions) t))
unfolding arrange
arrange-Answers q t none h = (Permᴰ.refl _, unordered _)
arrange-Answers q t (some o) h = (
  sort-perm (before o) (filter (matches q.conditions) t),
  sort-before-Ordered o (filter (matches q.conditions) t),
)

above_fresh : (n : ℕ) (t : Table) → above t ≤ n → All (λ r. (r.id == n) ≡ false) t
unfolding above
above_fresh n [] h = tt
above_fresh n (r ∷ t) h = (ground arith, above_fresh n t (omega arith))

pub memory-IsEngine : IsEngine memory
unfolding memory
memory-IsEngine = record {
  answers = λ q t rows h.
      let (p, o) = arrange-Answers q t q.order refl in
      record {
        arranged = arrange q.order (filter (matches q.conditions) t);
        perm = p;
        ordered = o;
        paged = sym (ok_eq h);
      };
  fresh_id = λ t. above_fresh (above t) t (omega arith);
  foreign = λ q t x h. cc;
}

pub memory-Responds : Responds memory
unfolding memory
memory-Responds q t = (_, refl)
