-- ===== src/Services/Candles/Grouping.antt =====
-- The rows of `get_candles` in buckets: the `defaultdict(list)` of app/services.py, its keys in the
-- order of their first use.
use deribit_price_collector.Prelude.{
  ℕ, ◌≡◌, refl, sym, ◌∙◌, ◌≢◌, ◌⊎◌, ◌↔◌, inl, inr, Bool, true, false, Bool-cases, List, [], ◌∷◌,
  ◌++◌, append-nil, append_assoc, map, filter, arith, if◌then◌else◌,
}
use deribit_price_collector.Prelude.Int.{ℤ, pos, ◌*ℤ◌, floor_div, eq_ℤ, eq_ℤ_iff}
use deribit_price_collector.Prelude.Order.{Ordered, Member, All-member, All-of_Member}
use deribit_price_collector.Table.{Price}

abbrev pub Buckets : Type 0
Buckets = List (ℤ × List Price)

-- (price.timestamp // interval_seconds) * interval_seconds
unfoldable pub bucket_start_of : ℕ → Price → ℤ
bucket_start_of interval_seconds r = floor_div r.timestamp interval_seconds *ℤ pos interval_seconds

-- buckets[start].append(price)
unfoldable pub append_to : ℤ → Price → Buckets → Buckets
append_to start r [] = (start, r ∷ []) ∷ []
append_to start r ((k, rows) ∷ buckets) =
    if eq_ℤ k start then (k, rows ++ r ∷ []) ∷ buckets else (k, rows) ∷ append_to start r buckets

-- buckets[start]
unfoldable pub bucket_at : ℤ → Buckets → List Price
bucket_at start [] = []
bucket_at start ((k, rows) ∷ buckets) = if eq_ℤ k start then rows else bucket_at start buckets

-- The first loop of `get_candles`.
unfoldable pub group : ℕ → List Price → Buckets → Buckets
unfolding append_to bucket_start_of
group interval_seconds [] buckets = buckets
group interval_seconds (r ∷ prices) buckets =
    group interval_seconds prices (append_to (bucket_start_of interval_seconds r) r buckets)

abbrev pub keys : Buckets → List ℤ
keys buckets = map (λ (b : ℤ × List Price). b.0) buckets

-- The rows of one bucket.
abbrev pub in_bucket : ℕ → ℤ → Price → Bool
in_bucket interval_seconds start r = eq_ℤ (bucket_start_of interval_seconds r) start

bucket_at-append_to :
    (start k : ℤ) (r : Price) (buckets : Buckets)
    → bucket_at k (append_to start r buckets)
      ≡ bucket_at k buckets ++ (if eq_ℤ start k then r ∷ [] else [])
unfolding bucket_at append_to
bucket_at-append_to start k r [] = refl
bucket_at-append_to start k r ((j, rows) ∷ buckets) = ground (
  arith,
  bucket_at-append_to start k r buckets,
  append-nil rows,
  append-nil (bucket_at k buckets),
)

pub bucket_at-group :
    (s : ℕ) (k : ℤ) (prices : List Price) (buckets : Buckets)
    → bucket_at k (group s prices buckets) ≡ bucket_at k buckets ++ filter (in_bucket s k) prices
unfolding group
bucket_at-group s k [] buckets = sym (append-nil (bucket_at k buckets))
bucket_at-group s k (r ∷ prices) buckets =
    bucket_at-group s k prices (append_to (bucket_start_of s r) r buckets)
    ∙ step (Bool-cases (eq_ℤ (bucket_start_of s r) k))
  where
    step :
        (eq_ℤ (bucket_start_of s r) k ≡ true) ⊎ (eq_ℤ (bucket_start_of s r) k ≡ false)
        → bucket_at k (append_to (bucket_start_of s r) r buckets) ++ filter (in_bucket s k) prices
          ≡ bucket_at k buckets ++ filter (in_bucket s k) (r ∷ prices)
    step (inl e) =
        rw (bucket_at-append_to (bucket_start_of s r) k r buckets, e)
          (append_assoc (bucket_at k buckets) (r ∷ []) (filter (in_bucket s k) prices))
    step (inr e) =
        rw (
          bucket_at-append_to (bucket_start_of s r) k r buckets,
          e,
          append-nil (bucket_at k buckets),
        )

-- Which keys there are.
Member-append_to :
    (start k : ℤ) (r : Price) (buckets : Buckets)
    → Member k (keys (append_to start r buckets)) ↔ ((k ≡ start) ⊎ Member k (keys buckets))
unfolding append_to
Member-append_to start k r [] = (λ m. m, λ m. m)
Member-append_to start k r ((j, rows) ∷ buckets) = elim (Bool-cases (eq_ℤ j start)) [
  | inl e ↦ rw e (inr, there ((eq_ℤ_iff j start).0 e))
  | inr e ↦
      rw e (later (Member-append_to start k r buckets), back (Member-append_to start k r buckets))
]
  where
    there :
        j ≡ start
        → (k ≡ start) ⊎ ((k ≡ j) ⊎ Member k (keys buckets))
        → (k ≡ j) ⊎ Member k (keys buckets)
    there p (inl q) = inl (q ∙ sym p)
    there p (inr m) = m

    later :
        Member k (keys (append_to start r buckets)) ↔ ((k ≡ start) ⊎ Member k (keys buckets))
        → (k ≡ j) ⊎ Member k (keys (append_to start r buckets))
        → (k ≡ start) ⊎ ((k ≡ j) ⊎ Member k (keys buckets))
    later f (inl p) = inr (inl p)
    later f (inr m) = elim (f.0 m) [ inl p ↦ inl p | inr n ↦ inr (inr n) ]

    back :
        Member k (keys (append_to start r buckets)) ↔ ((k ≡ start) ⊎ Member k (keys buckets))
        → (k ≡ start) ⊎ ((k ≡ j) ⊎ Member k (keys buckets))
        → (k ≡ j) ⊎ Member k (keys (append_to start r buckets))
    back f (inl p) = inr (f.1 (inl p))
    back f (inr (inl p)) = inl p
    back f (inr (inr m)) = inr (f.1 (inr m))

append_to-distinct :
    (start : ℤ) (r : Price) (buckets : Buckets)
    → Ordered ◌≢◌ (keys buckets)
    → Ordered ◌≢◌ (keys (append_to start r buckets))
unfolding append_to
append_to-distinct start r [] h = (tt, tt)
append_to-distinct start r ((j, rows) ∷ buckets) h = elim (Bool-cases (eq_ℤ j start)) [
  | inl e ↦ rw e h
  | inr e ↦ rw e (
    All-of_Member (λ k. j ≢ k) (keys (append_to start r buckets)) (apart e),
    append_to-distinct start r buckets h.1,
  )
]
  where
    apart : eq_ℤ j start ≡ false → (k : ℤ) → Member k (keys (append_to start r buckets)) → j ≢ k
    apart e k m = elim ((Member-append_to start k r buckets).0 m) [
      | inl p ↦ λ q. cc (e, (eq_ℤ_iff j start).1 (q ∙ p))
      | inr n ↦ All-member (λ x. j ≢ x) k (keys buckets) h.0 n
    ]

-- The keys of the buckets are the starts of the rows, each once.
pub group-distinct :
    (s : ℕ) (prices : List Price) (buckets : Buckets)
    → Ordered ◌≢◌ (keys buckets)
    → Ordered ◌≢◌ (keys (group s prices buckets))
unfolding group
group-distinct s [] buckets h = h
group-distinct s (r ∷ prices) buckets h =
    group-distinct s prices _ (append_to-distinct (bucket_start_of s r) r buckets h)

pub Member-group :
    (s : ℕ) (k : ℤ) (prices : List Price) (buckets : Buckets)
    → Member k (keys (group s prices buckets))
      ↔ (Member k (map (bucket_start_of s) prices) ⊎ Member k (keys buckets))
unfolding group
Member-group s k [] buckets = (inr, only)
  where
    only : ⊥ ⊎ Member k (keys buckets) → Member k (keys buckets)
    only (inl h) = absurd h
    only (inr m) = m
Member-group s k (r ∷ prices) buckets =
    let start = bucket_start_of s r in
    (
      λ m.
          out (Member-append_to start k r buckets)
            ((Member-group s k prices (append_to start r buckets)).0 m),
      λ m.
          (Member-group s k prices (append_to start r buckets)).1
            (in_to (Member-append_to start k r buckets) m),
    )
  where
    out :
        {M N : Type 0} {P : Type 0}
        → N ↔ ((k ≡ bucket_start_of s r) ⊎ M)
        → P ⊎ N
        → ((k ≡ bucket_start_of s r) ⊎ P) ⊎ M
    out f (inl p) = inl (inr p)
    out f (inr n) = elim (f.0 n) [ inl q ↦ inl (inl q) | inr m ↦ inr m ]

    in_to :
        {M N : Type 0} {P : Type 0}
        → N ↔ ((k ≡ bucket_start_of s r) ⊎ M)
        → ((k ≡ bucket_start_of s r) ⊎ P) ⊎ M
        → P ⊎ N
    in_to f (inl (inl q)) = inr (f.1 (inl q))
    in_to f (inl (inr p)) = inl p
    in_to f (inr m) = inr (f.1 (inr m))
