-- ===== src/Table/Sorting.antt =====
-- Rows sorted by their times, as `ORDER BY prices.timestamp` asks for.
use deribit_price_collector.Prelude.{◌≡◌, Bool, true, false, some, List, arith}
use deribit_price_collector.Prelude.Int.{leb_ℤ}
use deribit_price_collector.Prelude.Order.{Ordered}
use deribit_price_collector.Prelude.Sort.{sort, sort-Ordered}
use deribit_price_collector.Table.{Price, SortOrder, asc, desc, InOrder}

unfoldable pub before : SortOrder → Price → Price → Bool
before asc a b = leb_ℤ a.timestamp b.timestamp
before desc a b = leb_ℤ b.timestamp a.timestamp

before_yes : (o : SortOrder) (a b : Price) → before o a b ≡ true → InOrder (some o) a b
unfolding before
before_yes asc a b h = ground arith
before_yes desc a b h = ground arith

before_no : (o : SortOrder) (a b : Price) → before o a b ≡ false → InOrder (some o) b a
unfolding before
before_no asc a b h = ground arith
before_no desc a b h = ground arith

before_trans :
    (o : SortOrder) (a b c : Price)
    → InOrder (some o) a b
    → InOrder (some o) b c
    → InOrder (some o) a c
before_trans asc a b c h k = omega arith
before_trans desc a b c h k = omega arith

pub sort-before-Ordered :
    (o : SortOrder) (rows : List Price) → Ordered (InOrder (some o)) (sort (before o) rows)
sort-before-Ordered o rows =
    sort-Ordered (before o) (InOrder (some o)) (before_yes o) (before_no o) (before_trans o) rows
