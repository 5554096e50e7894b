-- ===== src/Prelude/Sort.antt =====
-- Sorting by insertion, by a Boolean test: what `sorted` and `ORDER BY` are modelled by.
use mathlib.Core.List.Permᴰ
use mathlib.Core.Path.{◌≡◌, refl}
use mathlib.Core.Logic.{inl, inr}
use mathlib.Core.Bool.{Bool, true, false}
use mathlib.Core.List.{List, [], ◌∷◌, Permᴰ}
use deribit_price_collector.Prelude.Tests.{if◌then◌else◌, Bool-cases}
use deribit_price_collector.Prelude.Lists.{All}
use deribit_price_collector.Prelude.Order.{Ordered, All-perm}

module _ {A : Type 0} (before : A → A → Bool) where
  abbrev pub insert : A → List A → List A
  insert a [] = a ∷ []
  insert a (x ∷ xs) = if before a x then a ∷ x ∷ xs else x ∷ insert a xs

  abbrev pub sort : List A → List A
  sort [] = []
  sort (x ∷ xs) = insert x (sort xs)

  insert-perm : (a : A) (xs : List A) → Permᴰ (insert a xs) (a ∷ xs)
  insert-perm a [] = Permᴰ.refl (a ∷ [])
  insert-perm a (x ∷ xs) = elim (Bool-cases (before a x)) [
    | inl e ↦ rw e (Permᴰ.refl (a ∷ x ∷ xs))
    | inr e ↦ rw e (Permᴰ.trans (Permᴰ.cons refl (insert-perm a xs)) (Permᴰ.swap refl refl))
  ]

  pub sort-perm : (xs : List A) → Permᴰ (sort xs) xs
  sort-perm [] = Permᴰ.nil
  sort-perm (x ∷ xs) = Permᴰ.trans (insert-perm x (sort xs)) (Permᴰ.cons refl (sort-perm xs))

  module _ {κ} (R : A → A → Type κ) (first : (a b : A) → before a b ≡ true → R a b)
      (second : (a b : A) → before a b ≡ false → R b a)
      (trans : (a b c : A) → R a b → R b c → R a c) where
    All-trans : (a b : A) (xs : List A) → R a b → All (R b) xs → All (R a) xs
    All-trans a b [] h k = tt
    All-trans a b (x ∷ xs) h k = (trans a b x h k.0, All-trans a b xs h k.1)

    insert-Ordered : (a : A) (xs : List A) → Ordered R xs → Ordered R (insert a xs)
    insert-Ordered a [] h = (tt, tt)
    insert-Ordered a (x ∷ xs) h = elim (Bool-cases (before a x)) [
      | inl e ↦ let k = first a x e in rw e ((k, All-trans a x xs k h.0), (h.0, h.1))
      | inr e ↦ rw e (
        All-perm (R x) (Permᴰ.symm (insert-perm a xs)) (second a x e, h.0),
        insert-Ordered a xs h.1,
      )
    ]

    pub sort-Ordered : (xs : List A) → Ordered R (sort xs)
    sort-Ordered [] = tt
    sort-Ordered (x ∷ xs) = insert-Ordered x (sort xs) (sort-Ordered xs)
