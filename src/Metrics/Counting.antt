-- ===== src/Metrics/Counting.antt =====
-- collections.Counter, as app/core/metrics.py uses it: `c[key] += 1` and a look at a key.
use deribit_price_collector.Prelude.{
  ℕ, ◌+◌, ◌≡◌, sym, ◌∙◌, ◌↔◌, Bool, true, false, List, [], ◌∷◌, Bool-cases, inl, inr, arith,
  if◌then◌else◌,
}

-- The keys in the order of their first use.
abbrev pub Counter : Type 0 → Type 0
Counter K = List (K × ℕ)

abbrev pub one_if : Bool → ℕ
one_if b = if b then 1 else 0

module _ {K : Type 0} (eq : K → K → Bool) where
  -- c[key] += 1
  unfoldable pub increment : K → Counter K → Counter K
  increment key [] = (key, 1) ∷ []
  increment key ((k, n) ∷ c) =
      let rest = increment key c in if eq k key then (k, n + 1) ∷ c else (k, n) ∷ rest

  -- c[key]: 0 if the key is missing
  unfoldable pub counted : K → Counter K → ℕ
  counted key [] = 0
  counted key ((k, n) ∷ c) = let rest = counted key c in if eq k key then n else rest

  module _ (eq_iff : (a b : K) → (eq a b ≡ true) ↔ (a ≡ b)) where
    pub counted-increment :
        (key j : K) (c : Counter K)
        → counted key (increment j c) ≡ one_if (eq j key) + counted key c
    unfolding increment counted
    counted-increment key j [] = elim (Bool-cases (eq j key)) [ inl e ↦ rw e | inr e ↦ rw e ]
    counted-increment key j ((k, n) ∷ c) = elim (Bool-cases (eq k j)) [
      | inl e ↦
          let p : k ≡ j = (eq_iff k j).0 e in
          elim (Bool-cases (eq j key)) [
            | inl f ↦ rw (e, p, f) (omega arith)
            | inr f ↦ rw (e, p, f) (omega arith)
          ]
      | inr e ↦ elim (Bool-cases (eq k key)) [
        | inl f ↦ rw (e, f, other j k key e ((eq_iff k key).0 f)) (omega arith)
        | inr f ↦ rw (e, f, counted-increment key j c)
      ]
    ]
      where
        other : (j k key : K) → eq k j ≡ false → k ≡ key → eq j key ≡ false
        other j k key e p = elim (Bool-cases (eq j key)) [
          | inl g ↦ cc (e, (eq_iff k j).1 (p ∙ sym ((eq_iff j key).0 g)))
          | inr g ↦ g
        ]
