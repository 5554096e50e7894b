-- ===== src/Tasks/Points.antt =====
-- Points put into the table as a map: what it holds afterwards.
use deribit_price_collector.Prelude.{
  String, ◌≡◌, ap, ◌⊎◌, inl, inr, true, Bool-cases, some, List, [], ◌∷◌, ◌++◌, str_eq, str_eq_iff,
  ◌&&◌,
}
use deribit_price_collector.Prelude.Int.{ℤ, eq_ℤ, eq_ℤ_iff}
use deribit_price_collector.Prelude.Order.{Member}
use deribit_price_collector.Table.Unique.Write.{put}
use deribit_price_collector.Tasks.Fetch.Loop.{Point, View, put_all}
use deribit_price_collector.Tasks.Backfill.Loop.{points_of}

pub Member-append :
    {A : Type 0} (a : A) (xs ys : List A) → Member a (xs ++ ys) → Member a xs ⊎ Member a ys
Member-append a [] ys m = inr m
Member-append a (x ∷ xs) ys (inl e) = inl (inl e)
Member-append a (x ∷ xs) ys (inr m) = elim (Member-append a xs ys m) [
  | inl n ↦ inl (inr n)
  | inr n ↦ inr n
]

same_point :
    (a ticker : String) (b timestamp p price : ℤ)
    → (str_eq a ticker && eq_ℤ b timestamp) ≡ true
    → some p ≡ some price
    → ◌≡◌ {A = Point} (ticker, price, timestamp) (a, p, b)
same_point a ticker b timestamp p price e k = elim (Bool-cases (str_eq a ticker)) [
  | inl f ↦ cc ((str_eq_iff a ticker).0 f, (eq_ℤ_iff b timestamp).0 (rw f at e), k)
  | inr f ↦ cc (rw f at e)
]

-- What a view holds after some points is one of them, or was there before.
pub put_all_cases :
    (points : List Point) (view : View) (ticker : String) (timestamp price : ℤ)
    → put_all points view ticker timestamp ≡ some price
    → Member (ticker, price, timestamp) points ⊎ (view ticker timestamp ≡ some price)
put_all_cases [] view ticker timestamp price h = inr h
put_all_cases ((a, p, b) ∷ points) view ticker timestamp price h =
    elim (put_all_cases points (put view a b p) ticker timestamp price h) [
      | inl m ↦ inl (inr m)
      | inr k ↦ elim (Bool-cases (str_eq a ticker && eq_ℤ b timestamp)) [
        | inl e ↦ inl (inl (same_point a ticker b timestamp p price e (rw e at k)))
        | inr e ↦ inr (rw e at k)
      ]
    ]

-- A view that holds something still does after some points.
pub put_all_keeps :
    (points : List Point) (view : View) (ticker : String) (timestamp price : ℤ)
    → view ticker timestamp ≡ some price
    → (after : ℤ) × (put_all points view ticker timestamp ≡ some after)
put_all_keeps [] view ticker timestamp price h = (price, h)
put_all_keeps ((a, p, b) ∷ points) view ticker timestamp price h =
    elim (Bool-cases (str_eq a ticker && eq_ℤ b timestamp)) [
      | inl e ↦ put_all_keeps points (put view a b p) ticker timestamp p (rw e)
      | inr e ↦ put_all_keeps points (put view a b p) ticker timestamp price (rw e h)
    ]

pub points_of-Member :
    (a ticker : String) (price timestamp : ℤ) (points : List (ℤ × ℤ))
    → Member (ticker, price, timestamp) (points_of a points)
    → (ticker ≡ a) × Member (price, timestamp) points
points_of-Member a ticker price timestamp [] m = absurd m
points_of-Member a ticker price timestamp ((p, b) ∷ points) (inl e) =
    (ap (λ z. z.0) e, inl (λ i. ((e i).1, (e i).2)))
points_of-Member a ticker price timestamp ((p, b) ∷ points) (inr m) =
    let (e, n) = points_of-Member a ticker price timestamp points m in (e, inr n)
