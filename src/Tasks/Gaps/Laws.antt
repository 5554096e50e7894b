-- ===== src/Tasks/Gaps/Laws.antt =====
-- What the gap test of collector/tasks.py finds, and which range fits a lookback.
use deribit_price_collector.Prelude.{
  ◌*◌, ◌↔◌, ◌≡◌, refl, ◌⊎◌, inl, inr, Bool, false, List, [], ◌∷◌, any, length, ltb, arith,
  Bool-cases,
}
use deribit_price_collector.Prelude.Int.{ℤ, pos, ◌*ℤ◌, ◌-ℤ◌, ltb_ℤ, ◌≤ℤ◌, ◌<ℤ◌}
use deribit_price_collector.Prelude.Order.{Ordered, Member, All-member}
use deribit_price_collector.Providers.{
  HistoryRange, one_hour, one_day, two_days, one_month, one_year, all,
}
use deribit_price_collector.Tasks.Gaps.{resolve_reconciliation_range, zip, has_missing_intervals}

-- The range that fits a lookback: an hour, a day, two days, 31 or 366 days at most, or all there is.
abbrev pub Within : ℤ → HistoryRange → Type 0
Within n one_hour = n ≤ℤ pos 3600
Within n one_day = (pos 3600 <ℤ n) × (n ≤ℤ pos 86400)
Within n two_days = (pos 86400 <ℤ n) × (n ≤ℤ pos (2 * 86400))
Within n one_month = (pos (2 * 86400) <ℤ n) × (n ≤ℤ pos (31 * 86400))
Within n one_year = (pos (31 * 86400) <ℤ n) × (n ≤ℤ pos (366 * 86400))
Within n all = pos (366 * 86400) <ℤ n

pub resolve_reconciliation_range-Within :
    (lookback : ℤ) → Within lookback (resolve_reconciliation_range lookback)
unfolding resolve_reconciliation_range
resolve_reconciliation_range-Within lookback = ground arith

pub Within-unique :
    (lookback : ℤ) (r : HistoryRange)
    → Within lookback r
    → resolve_reconciliation_range lookback ≡ r
unfolding resolve_reconciliation_range
Within-unique lookback one_hour h = ground arith
Within-unique lookback one_day h = ground arith
Within-unique lookback two_days h = ground arith
Within-unique lookback one_month h = ground arith
Within-unique lookback one_year h = ground arith
Within-unique lookback all h = ground arith

-- Successive times lie at most `max_gap` apart.
abbrev pub NoGap : ℤ → List ℤ → Type 0
NoGap max_gap [] = Unit
NoGap max_gap (x ∷ []) = Unit
NoGap max_gap (x ∷ y ∷ rest) = ((y -ℤ x) ≤ℤ max_gap) × NoGap max_gap (y ∷ rest)

abbrev too_far : ℤ → ℤ × ℤ → Bool
too_far max_gap pair = ltb_ℤ max_gap (pair.1 -ℤ pair.0)

any-NoGap :
    (max_gap x : ℤ) (rest : List ℤ)
    → any (too_far max_gap) (zip (x ∷ rest) rest) ≡ false
    → NoGap max_gap (x ∷ rest)
any-NoGap max_gap x [] h = tt
any-NoGap max_gap x (y ∷ rest) h = elim (Bool-cases (too_far max_gap (x, y))) [
  | inl e ↦ cc (rw e at h)
  | inr e ↦ (ground arith, any-NoGap max_gap y rest (rw e at h))
]

NoGap-any :
    (max_gap x : ℤ) (rest : List ℤ)
    → NoGap max_gap (x ∷ rest)
    → any (too_far max_gap) (zip (x ∷ rest) rest) ≡ false
NoGap-any max_gap x [] h = refl
NoGap-any max_gap x (y ∷ rest) h =
    let e : too_far max_gap (x, y) ≡ false = ground arith in rw e (NoGap-any max_gap y rest h.1)

two_or_more : (x y : ℤ) (rest : List ℤ) → ltb (length (x ∷ y ∷ rest)) 2 ≡ false
two_or_more x y rest = ground arith

-- The test is negative exactly if successive timestamps are never further apart than the step times
-- the multiplier; with fewer than two timestamps it is negative.
pub has_missing_intervals_iff :
    (timestamps : List ℤ) (step multiplier : ℤ)
    → (has_missing_intervals timestamps step multiplier ≡ false)
      ↔ NoGap (step *ℤ multiplier) timestamps
unfolding has_missing_intervals
has_missing_intervals_iff [] step multiplier = (λ h. tt, λ h. refl)
has_missing_intervals_iff (x ∷ []) step multiplier = (λ h. tt, λ h. refl)
has_missing_intervals_iff (x ∷ y ∷ rest) step multiplier =
    rw (two_or_more x y rest)
      (any-NoGap (step *ℤ multiplier) x (y ∷ rest), NoGap-any (step *ℤ multiplier) x (y ∷ rest))

-- In a list in ascending order with no gap, each time but the last is followed by one that is at
-- most `max_gap` later.
pub NoGap-next :
    (max_gap : ℤ) (times : List ℤ)
    → Ordered ◌<ℤ◌ times
    → NoGap max_gap times
    → (n : ℤ) → Member n times
    → ((m : ℤ) → Member m times → m ≤ℤ n)
      ⊎ ((m : ℤ) × Member m times × (n <ℤ m) × ((m -ℤ n) ≤ℤ max_gap))
NoGap-next max_gap [] o g n h = absurd h
NoGap-next max_gap (x ∷ []) o g n (inl e) = inl (λ m k. last m k)
  where
    last : (m : ℤ) → Member m (x ∷ []) → m ≤ℤ n
    last m (inl p) = rw (e, p) (omega arith)
    last m (inr p) = absurd p
NoGap-next max_gap (x ∷ []) o g n (inr h) = absurd h
NoGap-next max_gap (x ∷ y ∷ rest) o g n (inl e) = inr (y, inr (inl refl), rw e o.0.0, rw e g.0)
NoGap-next max_gap (x ∷ y ∷ rest) o g n (inr h) = later (NoGap-next max_gap (y ∷ rest) o.1 g.1 n h)
  where
    before : x <ℤ n
    before = All-member (λ z. x <ℤ z) n (y ∷ rest) o.0 h

    newest : ((m : ℤ) → Member m (y ∷ rest) → m ≤ℤ n) → (m : ℤ) → Member m (x ∷ y ∷ rest) → m ≤ℤ n
    newest f m (inl p) = rw p (omega (arith, before))
    newest f m (inr p) = f m p

    later :
        ((m : ℤ) → Member m (y ∷ rest) → m ≤ℤ n)
          ⊎ ((m : ℤ) × Member m (y ∷ rest) × (n <ℤ m) × ((m -ℤ n) ≤ℤ max_gap))
        → ((m : ℤ) → Member m (x ∷ y ∷ rest) → m ≤ℤ n)
          ⊎ ((m : ℤ) × Member m (x ∷ y ∷ rest) × (n <ℤ m) × ((m -ℤ n) ≤ℤ max_gap))
    later (inl f) = inl (newest f)
    later (inr (m, k, p, q)) = inr (m, inr k, p, q)
