-- ===== src/Table/Unique/Write.antt =====
-- An update by primary key, as app/repositories.py does it, on a valid table, and the table as a map.
use deribit_price_collector.Prelude.{
  ℕ, String, ◌≡◌, refl, ap, sym, ◌∙◌, true, false, [], ◌∷◌, ◌&&◌, Option, none, some, All,
  Bool-cases, inl, inr, arith, ◌==◌, str_eq, str_eq_iff, if◌then◌else◌,
}
use deribit_price_collector.Prelude.Int.{ℤ, eq_ℤ, eq_ℤ_iff}
use mathlib.Core.Path.{subst}
use deribit_price_collector.Table.{Price, Table, same_key}
use deribit_price_collector.Table.Unique.{Distinct, IsTable, find, set_price, same_key_iff}

-- The table as a client sees it: the price of a ticker at a time.
abbrev pub price_of : Option Price → Option ℤ
price_of none = none
price_of (some r) = some r.price

abbrev pub price_at : Table → String → ℤ → Option ℤ
price_at t ticker timestamp = price_of (find ticker timestamp t)

-- One entry of that map, replaced.
abbrev pub put : (String → ℤ → Option ℤ) → String → ℤ → ℤ → String → ℤ → Option ℤ
put view ticker timestamp price a b =
    if str_eq ticker a && eq_ℤ timestamp b then some price else view a b

set_price-Distinct :
    (r : Price) (id : ℕ) (price : ℤ) (t : Table)
    → All (Distinct r) t
    → All (Distinct r) (set_price id price t)
unfolding set_price
set_price-Distinct r id price [] h = tt
set_price-Distinct r id price (q ∷ t) h = elim (Bool-cases (q.id == id)) [
  | inl e ↦ rw e (record { id = h.0.id; key = h.0.key }, set_price-Distinct r id price t h.1)
  | inr e ↦ rw e (h.0, set_price-Distinct r id price t h.1)
]

Distinct-set :
    (r : Price) (price : ℤ) (t : Table)
    → All (Distinct r) t
    → All (Distinct (record r { price = price })) t
Distinct-set r price [] h = tt
Distinct-set r price (q ∷ t) h = (record { id = h.0.id; key = h.0.key }, Distinct-set r price t h.1)

same_id : (n : ℕ) → (n == n) ≡ true
same_id n = ground arith

pub set_price-IsTable :
    (id : ℕ) (price : ℤ) (t : Table) → IsTable t → IsTable (set_price id price t)
unfolding set_price
set_price-IsTable id price [] v = tt
set_price-IsTable id price (r ∷ t) v = elim (Bool-cases (r.id == id)) [
  | inl e ↦ rw e (
    Distinct-set r price _ (set_price-Distinct r id price t v.0),
    set_price-IsTable id price t v.1,
  )
  | inr e ↦ rw e (set_price-Distinct r id price t v.0, set_price-IsTable id price t v.1)
]

-- An update of an id that is in use nowhere changes nothing.
set_price_absent :
    (r : Price) (price : ℤ) (t : Table) → All (Distinct r) t → set_price r.id price t ≡ t
unfolding set_price
set_price_absent r price [] h = refl
set_price_absent r price (q ∷ t) h = rw h.0.id (ap (◌∷◌ q) (set_price_absent r price t h.1))

find_id :
    (ticker : String) (timestamp : ℤ) (r q : Price) (t : Table)
    → All (Distinct r) t
    → find ticker timestamp t ≡ some q
    → (r.id == q.id) ≡ false
find_id ticker timestamp r q [] d h = cc
find_id ticker timestamp r q (p ∷ t) d h = elim (Bool-cases (same_key ticker timestamp p)) [
  | inl e ↦ ground (arith, d.0.id)
  | inr e ↦ find_id ticker timestamp r q t d.1 (rw e at h)
]

key_test :
    (ticker a : String) (timestamp b : ℤ) (r : Price)
    → same_key ticker timestamp r ≡ true
    → same_key a b r ≡ (str_eq ticker a && eq_ℤ timestamp b)
key_test ticker a timestamp b r h = let (e, f) = same_key_iff ticker timestamp r h in rw (e, f)

pub some_eq : {q r : Price} → some q ≡ some r → q ≡ r
some_eq {q} {r} h = cc

pub key_clash :
    (ticker a : String) (timestamp b : ℤ) (r : Price)
    → same_key ticker timestamp r ≡ false
    → same_key a b r ≡ true
    → (str_eq ticker a && eq_ℤ timestamp b) ≡ false
key_clash ticker a timestamp b r h k = elim (Bool-cases (str_eq ticker a && eq_ℤ timestamp b)) [
  | inl e ↦ cc (clash e)
  | inr e ↦ e
]
  where
    clash : (str_eq ticker a && eq_ℤ timestamp b) ≡ true → false ≡ true
    clash e =
        let p : ticker ≡ a = (str_eq_iff ticker a).0 (ground arith) in
        let q : timestamp ≡ b = (eq_ℤ_iff timestamp b).0 (ground arith) in sym h ∙ rw (p, q) k

update_head :
    (ticker : String) (timestamp price : ℤ) (q : Price) (t : Table)
    → All (Distinct q) t
    → same_key ticker timestamp q ≡ true
    → (a : String) (b : ℤ)
    → price_at (set_price q.id price (q ∷ t)) a b
      ≡ put (price_at (q ∷ t)) ticker timestamp price a b
unfolding set_price
update_head ticker timestamp price q t d e a b =
    rw (same_id q.id, set_price_absent q price t d, key_test ticker a timestamp b q e)
      (elim (Bool-cases (str_eq ticker a && eq_ℤ timestamp b)) [ inl k ↦ rw k | inr k ↦ rw k ])

-- The update of a row that was found replaces the price under its key, and no other.
pub price_at-set_price :
    (ticker : String) (timestamp price : ℤ) (r : Price) (t : Table)
    → IsTable t
    → find ticker timestamp t ≡ some r
    → (a : String) (b : ℤ)
    → price_at (set_price r.id price t) a b ≡ put (price_at t) ticker timestamp price a b
price_at-set_price ticker timestamp price r [] v h a b = cc
price_at-set_price ticker timestamp price r (q ∷ t) v h a b =
    elim (Bool-cases (same_key ticker timestamp q)) [
      | inl e ↦ here e
      | inr e ↦ later e (price_at-set_price ticker timestamp price r t v.1 (rw e at h) a b)
    ]
  where
    here :
        same_key ticker timestamp q ≡ true
        → price_at (set_price r.id price (q ∷ t)) a b
          ≡ put (price_at (q ∷ t)) ticker timestamp price a b
    here e =
        let p : q ≡ r = some_eq (rw e at h) in
        subst
          (λ (z : Price).
            price_at (set_price z.id price (q ∷ t)) a b
            ≡ put (price_at (q ∷ t)) ticker timestamp price a b)
          p (update_head ticker timestamp price q t v.0 e a b)

    later :
        same_key ticker timestamp q ≡ false
        → price_at (set_price r.id price t) a b ≡ put (price_at t) ticker timestamp price a b
        → price_at (set_price r.id price (q ∷ t)) a b
          ≡ put (price_at (q ∷ t)) ticker timestamp price a b
    later e ih =
        unfold set_price in
        rw (find_id ticker timestamp q r t v.0 (rw e at h)) (elim (Bool-cases (same_key a b q)) [
          | inl k ↦ rw (k, key_clash ticker a timestamp b q e k)
          | inr k ↦ rw k ih
        ])

-- A row that was found is found again after its update, with the new price.
pub find-set_price :
    (ticker : String) (timestamp price : ℤ) (r : Price) (t : Table)
    → IsTable t
    → find ticker timestamp t ≡ some r
    → find ticker timestamp (set_price r.id price t) ≡ some (record r { price = price })
unfolding set_price
find-set_price ticker timestamp price r [] v h = cc
find-set_price ticker timestamp price r (q ∷ t) v h =
    elim (Bool-cases (same_key ticker timestamp q)) [
      | inl e ↦
          let p : q ≡ r = some_eq (rw e at h) in
          let i : (q.id == r.id) ≡ true = rw p (same_id r.id) in
          rw (i, e) (λ j. some (record (p j) { price = price }))
      | inr e ↦
          rw (find_id ticker timestamp q r t v.0 (rw e at h), e)
            (find-set_price ticker timestamp price r t v.1 (rw e at h))
    ]

pub set_own_price : (r : Price) (price : ℤ) → r.price ≡ price → record r { price = price } ≡ r
set_own_price r price h = λ i. record r { price = sym h i }

-- The update of a row to the price that it has changes nothing.
pub set_price_same :
    (ticker : String) (timestamp price : ℤ) (r : Price) (t : Table)
    → IsTable t
    → find ticker timestamp t ≡ some r
    → r.price ≡ price
    → set_price r.id price t ≡ t
unfolding set_price
set_price_same ticker timestamp price r [] v h w = cc
set_price_same ticker timestamp price r (q ∷ t) v h w =
    elim (Bool-cases (same_key ticker timestamp q)) [
      | inl e ↦
          let p : q ≡ r = some_eq (rw e at h) in
          let i : (q.id == r.id) ≡ true = rw p (same_id r.id) in
          let k : set_price r.id price t ≡ t =
            subst (λ (z : Price). set_price z.id price t ≡ t) p (set_price_absent q price t v.0) in
          rw i (λ j. set_own_price q price (ap (λ (z : Price). z.price) p ∙ w) j ∷ k j)
      | inr e ↦
          rw (find_id ticker timestamp q r t v.0 (rw e at h))
            (ap (◌∷◌ q) (set_price_same ticker timestamp price r t v.1 (rw e at h) w))
    ]
