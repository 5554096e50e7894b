-- ===== src/Tasks/Reconcile/Found.antt =====
-- The tickers that the checks of `reconcile_recent_prices` (collector/tasks.py) find.
use deribit_price_collector.Prelude.{String, ◌≡◌, refl, ◌⊎◌, inl, inr, List, [], ◌∷◌}
use deribit_price_collector.Prelude.Int.{ℤ}
use deribit_price_collector.Prelude.Order.{Member}
use deribit_price_collector.Table.{Table}
use deribit_price_collector.Tasks.Reconcile.Health.{IsHealthy}

-- The tickers that a check found, out of those that it was given: in their order, those whose history
-- is not healthy.
pub data Found (t : Table) (lo now max_gap : ℤ) : List String → List String → Type 0 where
  end : Found t lo now max_gap [] []
  gap :
      {ticker : String} {tickers found : List String}
      → ¬ IsHealthy t ticker lo now max_gap
      → Found t lo now max_gap tickers found
      → Found t lo now max_gap (ticker ∷ tickers) (ticker ∷ found)
  healthy :
      {ticker : String} {tickers found : List String}
      → IsHealthy t ticker lo now max_gap
      → Found t lo now max_gap tickers found
      → Found t lo now max_gap (ticker ∷ tickers) found

-- Each of the tickers is healthy.
abbrev pub AllHealthy : Table → ℤ → ℤ → ℤ → List String → Type 0
AllHealthy t lo now max_gap tickers =
    (ticker : String) → Member ticker tickers → IsHealthy t ticker lo now max_gap

pub Found-cases :
    (t : Table) (lo now max_gap : ℤ) (tickers found : List String)
    → Found t lo now max_gap tickers found
    → (a : String) → Member a tickers
    → Member a found ⊎ IsHealthy t a lo now max_gap
Found-cases t lo now max_gap _ _ end a m = absurd m
Found-cases t lo now max_gap _ _ (gap h f) a (inl e) = inl (inl e)
Found-cases t lo now max_gap _ _ (gap h f) a (inr m) =
    elim (Found-cases t lo now max_gap _ _ f a m) [ inl n ↦ inl (inr n) | inr k ↦ inr k ]
Found-cases t lo now max_gap _ _ (healthy h f) a (inl e) = inr (rw e h)
Found-cases t lo now max_gap _ _ (healthy h f) a (inr m) = Found-cases t lo now max_gap _ _ f a m

pub Found-subset :
    (t : Table) (lo now max_gap : ℤ) (tickers found : List String)
    → Found t lo now max_gap tickers found
    → (a : String) → Member a found
    → Member a tickers × (¬ IsHealthy t a lo now max_gap)
Found-subset t lo now max_gap _ _ end a m = absurd m
Found-subset t lo now max_gap _ _ (gap h f) a (inl e) = (inl e, rw e h)
Found-subset t lo now max_gap _ _ (gap h f) a (inr m) =
    let (i, k) = Found-subset t lo now max_gap _ _ f a m in (inr i, k)
Found-subset t lo now max_gap _ _ (healthy h f) a m =
    let (i, k) = Found-subset t lo now max_gap _ _ f a m in (inr i, k)

-- Where all are healthy, none is found.
pub Found-none :
    (t : Table) (lo now max_gap : ℤ) (tickers found : List String)
    → Found t lo now max_gap tickers found
    → ((a : String) → Member a tickers → IsHealthy t a lo now max_gap)
    → found ≡ []
Found-none t lo now max_gap _ _ end h = refl
Found-none t lo now max_gap _ _ (gap k f) h = absurd (k (h _ (inl refl)))
Found-none t lo now max_gap _ _ (healthy k f) h =
    Found-none t lo now max_gap _ _ f (λ a m. h a (inr m))
