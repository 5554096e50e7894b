-- ===== src/Table/Unique/Insert.antt =====
-- An insertion into a valid table.
use deribit_price_collector.Prelude.{
  ℕ, String, ◌≡◌, sym, ◌∙◌, true, false, [], ◌∷◌, ◌++◌, none, some, All, Bool-cases, inl, inr,
  arith, ◌==◌, str_eq_refl,
}
use deribit_price_collector.Prelude.Int.{ℤ}
use deribit_price_collector.Table.{Price, Table, same_key}
use deribit_price_collector.Table.Unique.{Distinct, IsTable, find, same_key_iff}
use deribit_price_collector.Table.Unique.Write.{key_clash, price_at, put}

-- An insertion under a key that is not there sets the price under its key, and no other.
pub price_at-insert :
    (t : Table) (n : Price)
    → find n.ticker n.timestamp t ≡ none
    → (a : String) (b : ℤ)
    → price_at (t ++ n ∷ []) a b ≡ put (price_at t) n.ticker n.timestamp n.price a b
price_at-insert [] n h a b = elim (Bool-cases (same_key a b n)) [ inl k ↦ rw k | inr k ↦ rw k ]
price_at-insert (r ∷ t) n h a b = elim (Bool-cases (same_key n.ticker n.timestamp r)) [
  | inl e ↦ cc (rw e at h)
  | inr e ↦ elim (Bool-cases (same_key a b r)) [
    | inl k ↦ rw (k, key_clash n.ticker a n.timestamp b r e k)
    | inr k ↦ rw k (price_at-insert t n (rw e at h) a b)
  ]
]

pub key_symm :
    (r n : Price)
    → same_key n.ticker n.timestamp r ≡ false
    → same_key r.ticker r.timestamp n ≡ false
key_symm r n h = elim (Bool-cases (same_key r.ticker r.timestamp n)) [
  | inl e ↦ cc (clash (same_key_iff r.ticker r.timestamp n e))
  | inr e ↦ e
]
  where
    clash : (n.ticker ≡ r.ticker) × (n.timestamp ≡ r.timestamp) → false ≡ true
    clash (p, q) = sym h ∙ ground (arith, p, q, str_eq_refl r.ticker)

pub id_symm : (a b : ℕ) → (a == b) ≡ false → (b == a) ≡ false
id_symm a b h = ground arith

All-snoc-Distinct :
    (r n : Price) (t : Table) → All (Distinct r) t → Distinct r n → All (Distinct r) (t ++ n ∷ [])
All-snoc-Distinct r n [] h d = (d, tt)
All-snoc-Distinct r n (q ∷ t) h d = (h.0, All-snoc-Distinct r n t h.1 d)

pub insert-IsTable :
    (t : Table) (n : Price)
    → IsTable t
    → find n.ticker n.timestamp t ≡ none
    → All (λ r. (r.id == n.id) ≡ false) t
    → IsTable (t ++ n ∷ [])
insert-IsTable [] n v h f = (tt, tt)
insert-IsTable (r ∷ t) n v h f = elim (Bool-cases (same_key n.ticker n.timestamp r)) [
  | inl e ↦ cc (rw e at h)
  | inr e ↦ (
    All-snoc-Distinct r n t v.0 (record { id = id_symm r.id n.id f.0; key = key_symm r n e }),
    insert-IsTable t n v.1 (rw e at h) f.1,
  )
]

pub same_key_self : (n : Price) → same_key n.ticker n.timestamp n ≡ true
same_key_self n = ground (arith, str_eq_refl n.ticker)

-- The new row is found under its key.
pub find-insert :
    (t : Table) (n : Price)
    → find n.ticker n.timestamp t ≡ none
    → find n.ticker n.timestamp (t ++ n ∷ []) ≡ some n
find-insert [] n h = rw same_key_self
find-insert (r ∷ t) n h = elim (Bool-cases (same_key n.ticker n.timestamp r)) [
  | inl e ↦ cc (rw e at h)
  | inr e ↦ rw e (find-insert t n (rw e at h))
]
