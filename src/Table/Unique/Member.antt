-- ===== src/Table/Unique/Member.antt =====
-- Rows as members of a valid table, and as what is found under their key.
use deribit_price_collector.Prelude.{String, ◌≡◌, sym, [], ◌∷◌, some, Bool-cases, inl, inr}
use deribit_price_collector.Prelude.Int.{ℤ}
use deribit_price_collector.Prelude.Order.{Member, All-member}
use deribit_price_collector.Table.{Price, Table, same_key}
use deribit_price_collector.Table.Unique.{Distinct, IsTable, find, same_key_iff}
use deribit_price_collector.Table.Unique.Write.{some_eq}
use deribit_price_collector.Table.Unique.Insert.{key_symm, id_symm, same_key_self}

pub find-Member :
    (ticker : String) (timestamp : ℤ) (t : Table) (r : Price)
    → find ticker timestamp t ≡ some r
    → Member r t × (r.ticker ≡ ticker) × (r.timestamp ≡ timestamp)
find-Member ticker timestamp [] r h = cc
find-Member ticker timestamp (q ∷ t) r h = elim (Bool-cases (same_key ticker timestamp q)) [
  | inl e ↦
      let p : q ≡ r = some_eq (rw e at h) in
      let k = same_key_iff ticker timestamp r (rw p at e) in (inl (sym p), k.0, k.1)
  | inr e ↦ let (m, k, l) = find-Member ticker timestamp t r (rw e at h) in (inr m, k, l)
]

pub Member-find :
    (r : Price) (t : Table) → IsTable t → Member r t → find r.ticker r.timestamp t ≡ some r
Member-find r [] v m = absurd m
Member-find r (q ∷ t) v (inl e) = rw e (rw (same_key_self q))
Member-find r (q ∷ t) v (inr m) =
    let d = All-member (Distinct q) r t v.0 m in rw (key_symm r q d.key) (Member-find r t v.1 m)

pub Distinct-symm : (r q : Price) → Distinct r q → Distinct q r
Distinct-symm r q d = record { id = id_symm q.id r.id d.id; key = key_symm q r d.key }
