-- ===== src/Tasks/Reconcile/Health.antt =====
-- What it means, on the table alone, that the recent history of a ticker has no gap, and that the
-- tests of `reconcile_recent_prices` decide it.
use deribit_price_collector.Prelude.{
  String, ◌≡◌, refl, ◌↔◌, ◌⊎◌, inl, inr, false, Option, none, some, List, [], ◌∷◌, Bool-cases,
  arith,
}
use deribit_price_collector.Prelude.Int.{ℤ, ◌-ℤ◌, ◌*ℤ◌, ◌≤ℤ◌, ◌<ℤ◌, ltb_ℤ, int_laws}
use deribit_price_collector.Prelude.Order.{Ordered, Member, All-member}
use deribit_price_collector.Exceptions.{ok}
use deribit_price_collector.Config.{Config}
use deribit_price_collector.Table.{Price, Table}
use deribit_price_collector.Table.Engine.{Engine, IsEngine}
use deribit_price_collector.Table.Unique.{IsTable}
use deribit_price_collector.Repository.{get_timestamps_in_range}
use deribit_price_collector.Repository.Queries.{HasPrice, get_timestamps_in_range_iff}
use deribit_price_collector.Repository.Latest.{IsLatest, time_of}
use deribit_price_collector.Tasks.Gaps.Laws.{NoGap, NoGap-next, has_missing_intervals_iff}
use deribit_price_collector.Tasks.Reconcile.{needs_backfill}

-- Each time in the list is the last one, or is followed by another at most `max_gap` later.
abbrev pub Continued : ℤ → (ℤ → Type 0) → Type 0
Continued max_gap Stored =
    (n : ℤ)
    → Stored n
    → ((m : ℤ) → Stored m → m ≤ℤ n) ⊎ ((m : ℤ) × Stored m × (n <ℤ m) × ((m -ℤ n) ≤ℤ max_gap))

-- A price of the ticker is stored at the time, which lies in the window.
abbrev pub StoredIn : Table → String → ℤ → ℤ → ℤ → Type 0
StoredIn t ticker lo hi n = (lo ≤ℤ n) × (n ≤ℤ hi) × HasPrice t ticker n

-- The newest price is at most `max_gap` old, and in the window no two neighbours are further apart.
pub record IsHealthy (t : Table) (ticker : String) (lo hi max_gap : ℤ) : Type 0 where
  pub newest : Price
  pub latest : IsLatest t ticker (some newest)
  pub fresh : (hi -ℤ newest.timestamp) ≤ℤ max_gap
  pub continued : Continued max_gap (StoredIn t ticker lo hi)

head_of_next :
    (max_gap x y : ℤ) (rest : List ℤ)
    → Ordered ◌<ℤ◌ (x ∷ y ∷ rest)
    → ((m : ℤ) → Member m (x ∷ y ∷ rest) → m ≤ℤ x)
      ⊎ ((m : ℤ) × Member m (x ∷ y ∷ rest) × (x <ℤ m) × ((m -ℤ x) ≤ℤ max_gap))
    → (y -ℤ x) ≤ℤ max_gap
head_of_next max_gap x y rest o (inl f) = absurd (omega (arith, f y (inr (inl refl)), o.0.0))
head_of_next max_gap x y rest o (inr (m, inl p, q, g)) = absurd (irrefl (rw p at q))
  where
    irrefl : x <ℤ x → ⊥
    irrefl h = omega arith
head_of_next max_gap x y rest o (inr (m, inr (inl p), q, g)) = rw (← p) g
head_of_next max_gap x y rest o (inr (m, inr (inr p), q, g)) =
    let h : y <ℤ m = All-member (λ z. y <ℤ z) m rest o.1.0 p in omega (int_laws, h, g)

NoGap-of_next :
    (max_gap : ℤ) (times : List ℤ)
    → Ordered ◌<ℤ◌ times
    → Continued max_gap (λ n. Member n times)
    → NoGap max_gap times
NoGap-of_next max_gap [] o f = tt
NoGap-of_next max_gap (x ∷ []) o f = tt
NoGap-of_next max_gap (x ∷ y ∷ rest) o f = (
  head_of_next max_gap x y rest o (f x (inl refl)),
  NoGap-of_next max_gap (y ∷ rest) o.1 (λ n k. below n k (f n (inr k))),
)
  where
    below :
        (n : ℤ)
        → Member n (y ∷ rest)
        → ((m : ℤ) → Member m (x ∷ y ∷ rest) → m ≤ℤ n)
          ⊎ ((m : ℤ) × Member m (x ∷ y ∷ rest) × (n <ℤ m) × ((m -ℤ n) ≤ℤ max_gap))
        → ((m : ℤ) → Member m (y ∷ rest) → m ≤ℤ n)
          ⊎ ((m : ℤ) × Member m (y ∷ rest) × (n <ℤ m) × ((m -ℤ n) ≤ℤ max_gap))
    below n k (inl g) = inl (λ m h. g m (inr h))
    below n k (inr (m, inl p, q, g)) =
        let h : x <ℤ n = All-member (λ z. x <ℤ z) n (y ∷ rest) o.0 k in
        absurd (omega (arith, h, rw p at q))
    below n k (inr (m, inr p, q, g)) = inr (m, p, q, g)

pub Continued-iff :
    (max_gap : ℤ) {P Q : ℤ → Type 0}
    → ((n : ℤ) → P n ↔ Q n)
    → Continued max_gap P
    → Continued max_gap Q
Continued-iff max_gap {P} {Q} f h n q = turn (h n ((f n).1 q))
  where
    turn :
        ((m : ℤ) → P m → m ≤ℤ n) ⊎ ((m : ℤ) × P m × (n <ℤ m) × ((m -ℤ n) ≤ℤ max_gap))
        → ((m : ℤ) → Q m → m ≤ℤ n) ⊎ ((m : ℤ) × Q m × (n <ℤ m) × ((m -ℤ n) ≤ℤ max_gap))
    turn (inl g) = inl (λ m k. g m ((f m).1 k))
    turn (inr (m, p, a, b)) = inr (m, (f m).0 p, a, b)

swap_iff : {A B : Type 0} → A ↔ B → B ↔ A
swap_iff f = (f.1, f.0)

abbrev pub max_gap_of : Config → ℤ
max_gap_of c = c.price_fetch_interval_sec *ℤ c.reconciliation_stale_multiplier

module _ (c : Config) (t : Table) (ticker : String) (lo now : ℤ) (times : List ℤ)
    (ordered : Ordered ◌<ℤ◌ times)
    (stored : (n : ℤ) → Member n times ↔ StoredIn t ticker lo now n) where
  IsHealthy-of :
      (found : Option Price)
      → IsLatest t ticker found
      → needs_backfill c now (time_of found) times ≡ false
      → IsHealthy t ticker lo now (max_gap_of c)
  unfolding needs_backfill
  IsHealthy-of none l h = cc
  IsHealthy-of (some r) l h = elim (Bool-cases (ltb_ℤ (max_gap_of c) (now -ℤ r.timestamp))) [
    | inl f ↦ cc (rw f at h)
    | inr f ↦ record {
      newest = r;
      latest = l;
      fresh = ground arith;
      continued = Continued-iff (max_gap_of c) stored (
          NoGap-next (max_gap_of c) times ordered (
            (has_missing_intervals_iff times c.price_fetch_interval_sec
                c.reconciliation_stale_multiplier).0
              (rw f at h)));
    }
  ]

  of_healthy :
      (found : Option Price)
      → IsLatest t ticker found
      → IsHealthy t ticker lo now (max_gap_of c)
      → needs_backfill c now (time_of found) times ≡ false
  unfolding needs_backfill
  of_healthy none l h = absurd (l h.newest h.latest.0 h.latest.1)
  of_healthy (some r) l h =
      let newer : h.newest.timestamp ≤ℤ r.timestamp = l.2 h.newest h.latest.0 h.latest.1 in
      let near : (now -ℤ r.timestamp) ≤ℤ max_gap_of c = omega (int_laws, newer, h.fresh) in
      let f : ltb_ℤ (max_gap_of c) (now -ℤ r.timestamp) ≡ false = ground (arith, near) in
      rw f (
        (has_missing_intervals_iff times c.price_fetch_interval_sec
            c.reconciliation_stale_multiplier).1
          (NoGap-of_next (max_gap_of c) times ordered
            (Continued-iff (max_gap_of c) (λ n. swap_iff (stored n)) h.continued)))

-- The tests on the newest timestamp and on those in the window find nothing exactly if the history is
-- healthy.
pub needs_backfill_iff :
    (c : Config) (e : Engine) (t : Table) (ticker : String) (lo now : ℤ) (found : Option Price)
    (times : List ℤ)
    → IsEngine e
    → IsTable t
    → IsLatest t ticker found
    → get_timestamps_in_range e ticker lo now t ≡ ok times
    → (needs_backfill c now (time_of found) times ≡ false)
      ↔ IsHealthy t ticker lo now (max_gap_of c)
needs_backfill_iff c e t ticker lo now found times law v l h =
    let (ordered, stored) = get_timestamps_in_range_iff e law t v ticker lo now times h in
    (
      IsHealthy-of c t ticker lo now times ordered stored found l,
      of_healthy c t ticker lo now times ordered stored found l,
    )
