-- ===== src/Prelude/Order.antt =====
-- Rearrangements of lists, membership, and lists in order.
use mathlib.Core.List.Permᴰ
use deribit_price_collector.Prelude.Lists.{length, All, filter}
use deribit_price_collector.Prelude.Tests.{if◌then◌else◌, Bool-cases}
use Prim.Native.Nat.{suc}
use mathlib.Core.Path.{◌≡◌, refl, sym, ap, ◌∙◌, subst}
use mathlib.Core.Logic.{◌⊎◌, inl, inr}
use mathlib.Core.Bool.{Bool, true, false}
use mathlib.Core.List.{List, [], ◌∷◌, map, Permᴰ}
use native.Mathlib.Omega.{arith}

module _ {A : Type 0} where
  abbrev pub Member : A → List A → Type 0
  Member a [] = ⊥
  Member a (x ∷ xs) = (a ≡ x) ⊎ Member a xs

module _ {ℓ κ} {A : Type ℓ} (R : A → A → Type κ) where
  -- Every element stands in the relation to each that comes after it.
  abbrev pub Ordered : List A → Type κ
  Ordered [] = Unit
  Ordered (x ∷ xs) = All (R x) xs × Ordered xs

module _ {ℓ} {A : Type ℓ} where
  pub All-perm {κ} : (P : A → Type κ) {xs ys : List A} → Permᴰ xs ys → All P xs → All P ys
  All-perm P Permᴰ.nil h = h
  All-perm P (Permᴰ.cons e d) h = (subst P e h.0, All-perm P d h.1)
  All-perm P (Permᴰ.swap e f) h = (subst P f h.1.0, (subst P e h.0, h.1.1))
  All-perm P (Permᴰ.trans d₁ d₂) h = All-perm P d₂ (All-perm P d₁ h)

  pub length-perm : {xs ys : List A} → Permᴰ xs ys → length xs ≡ length ys
  length-perm Permᴰ.nil = refl
  length-perm (Permᴰ.cons e d) = ap suc (length-perm d)
  length-perm (Permᴰ.swap e f) = refl
  length-perm (Permᴰ.trans d₁ d₂) = length-perm d₁ ∙ length-perm d₂

  pub length-eq-zero : (xs : List A) → length xs ≡ 0 → xs ≡ []
  length-eq-zero [] h = refl
  length-eq-zero (x ∷ xs) h = absurd (omega arith)

  -- A rearrangement of the empty list, and of a list of one.
  pub perm-nil : {xs : List A} → Permᴰ xs [] → xs ≡ []
  perm-nil {xs} d = length-eq-zero xs (length-perm d)

  one_of : (a : A) (xs : List A) → length xs ≡ 1 → All (λ x. a ≡ x) xs → xs ≡ a ∷ []
  one_of a [] h e = absurd (omega arith)
  one_of a (x ∷ []) h e = λ i. sym e.0 i ∷ []
  one_of a (x ∷ y ∷ xs) h e = absurd (omega arith)

  pub perm-singleton : {a : A} {xs : List A} → Permᴰ xs (a ∷ []) → xs ≡ a ∷ []
  perm-singleton {a} {xs} d =
      one_of a xs (length-perm d) (All-perm (λ x. a ≡ x) (Permᴰ.symm d) (refl, tt))

  pub All-filter {κ} :
      (P : A → Type κ) (p : A → Bool) (xs : List A) → All P xs → All P (filter p xs)
  All-filter P p [] h = tt
  All-filter P p (x ∷ xs) h = elim (Bool-cases (p x)) [
    | inl e ↦ rw e (h.0, All-filter P p xs h.1)
    | inr e ↦ rw e (All-filter P p xs h.1)
  ]

  pub filter_none : (p : A → Bool) (xs : List A) → All (λ x. p x ≡ false) xs → filter p xs ≡ []
  filter_none p [] h = refl
  filter_none p (x ∷ xs) h = rw h.0 (filter_none p xs h.1)

module _ {A : Type 0} where
  pub Member-perm : (a : A) {xs ys : List A} → Permᴰ xs ys → Member a xs → Member a ys
  Member-perm a Permᴰ.nil h = h
  Member-perm a (Permᴰ.cons e d) (inl p) = inl (p ∙ e)
  Member-perm a (Permᴰ.cons e d) (inr m) = inr (Member-perm a d m)
  Member-perm a (Permᴰ.swap e f) (inl p) = inr (inl (p ∙ e))
  Member-perm a (Permᴰ.swap e f) (inr (inl p)) = inl (p ∙ f)
  Member-perm a (Permᴰ.swap e f) (inr (inr m)) = inr (inr m)
  Member-perm a (Permᴰ.trans d₁ d₂) h = Member-perm a d₂ (Member-perm a d₁ h)

  pub All-member {κ} : (P : A → Type κ) (a : A) (xs : List A) → All P xs → Member a xs → P a
  All-member P a (x ∷ xs) h (inl e) = subst P (sym e) h.0
  All-member P a (x ∷ xs) h (inr m) = All-member P a xs h.1 m
  All-member P a [] h m = absurd m

  pub All-of_Member {κ} : (P : A → Type κ) (xs : List A) → ((a : A) → Member a xs → P a) → All P xs
  All-of_Member P [] h = tt
  All-of_Member P (x ∷ xs) h = (h x (inl refl), All-of_Member P xs (λ a m. h a (inr m)))

  -- A filtered list has the elements that pass, and no others.
  pub Member-filter :
      (p : A → Bool) (a : A) (xs : List A) → Member a xs → p a ≡ true → Member a (filter p xs)
  Member-filter p a [] m h = m
  Member-filter p a (x ∷ xs) (inl e) h =
      subst (λ b. Member a (if b then x ∷ filter p xs else filter p xs)) (sym h ∙ ap p e) (inl e)
  Member-filter p a (x ∷ xs) (inr m) h = elim (Bool-cases (p x)) [
    | inl e ↦ rw e (inr (Member-filter p a xs m h))
    | inr e ↦ rw e (Member-filter p a xs m h)
  ]

  pub filter-Member :
      (p : A → Bool) (a : A) (xs : List A) → Member a (filter p xs) → Member a xs × (p a ≡ true)
  filter-Member p a [] m = absurd m
  filter-Member p a (x ∷ xs) m = elim (Bool-cases (p x)) [
    | inl e ↦ keep (filter-Member p a xs) e (rw e at m)
    | inr e ↦ later (filter-Member p a xs (rw e at m))
  ]
    where
      later : Member a xs × (p a ≡ true) → Member a (x ∷ xs) × (p a ≡ true)
      later (n, h) = (inr n, h)

      keep :
          (Member a (filter p xs) → Member a xs × (p a ≡ true))
          → p x ≡ true
          → Member a (x ∷ filter p xs)
          → Member a (x ∷ xs) × (p a ≡ true)
      keep ih e (inl q) = (inl q, ap p q ∙ e)
      keep ih e (inr n) = later (ih n)

module _ {A B : Type 0} where
  pub Member-map : (f : A → B) (a : A) (xs : List A) → Member a xs → Member (f a) (map f xs)
  Member-map f a (x ∷ xs) (inl e) = inl (ap f e)
  Member-map f a (x ∷ xs) (inr m) = inr (Member-map f a xs m)
  Member-map f a [] m = m

  pub map-Member :
      (f : A → B) (b : B) (xs : List A) → Member b (map f xs) → (a : A) × Member a xs × (b ≡ f a)
  map-Member f b [] m = absurd m
  map-Member f b (x ∷ xs) (inl e) = (x, inl refl, e)
  map-Member f b (x ∷ xs) (inr m) = let (a, n, e) = map-Member f b xs m in (a, inr n, e)

  pub All-map {κ} :
      (P : B → Type κ) (f : A → B) (xs : List A) → All (λ a. P (f a)) xs → All P (map f xs)
  All-map P f [] h = tt
  All-map P f (x ∷ xs) h = (h.0, All-map P f xs h.1)

  pub Ordered-map {κ} :
      (R : B → B → Type κ) (f : A → B) (xs : List A)
      → Ordered (λ a b. R (f a) (f b)) xs
      → Ordered R (map f xs)
  Ordered-map R f [] h = tt
  Ordered-map R f (x ∷ xs) h = (All-map (R (f x)) f xs h.0, Ordered-map R f xs h.1)

module _ {ℓ κ} {A : Type ℓ} (R : A → A → Type κ) where
  pub Ordered-filter : (p : A → Bool) (xs : List A) → Ordered R xs → Ordered R (filter p xs)
  Ordered-filter p [] h = tt
  Ordered-filter p (x ∷ xs) h = elim (Bool-cases (p x)) [
    | inl e ↦ rw e (All-filter (R x) p xs h.0, Ordered-filter p xs h.1)
    | inr e ↦ rw e (Ordered-filter p xs h.1)
  ]

  -- A symmetric relation between all pairs does not depend on the arrangement.
  pub Ordered-perm :
      ((a b : A) → R a b → R b a) → {xs ys : List A} → Permᴰ xs ys → Ordered R xs → Ordered R ys
  Ordered-perm symm Permᴰ.nil h = h
  Ordered-perm symm (Permᴰ.cons {l₂ = ys} e d) h =
      (subst (λ z. All (R z) ys) e (All-perm (R _) d h.0), Ordered-perm symm d h.1)
  Ordered-perm symm (Permᴰ.swap {a = a} {b = b} {b' = b'} {l = l} e f) h = (
    (
      subst (λ z. R z b') f (subst (λ z. R b z) e (symm a b h.0.0)),
      subst (λ z. All (R z) l) f h.1.0,
    ),
    (subst (λ z. All (R z) l) e h.0.1, h.1.1),
  )
  Ordered-perm symm (Permᴰ.trans d₁ d₂) h = Ordered-perm symm d₂ (Ordered-perm symm d₁ h)

module _ {κ} {A : Type 0} (R : A → A → Type κ) (asym : (a b : A) → R a b → R b a → ⊥) where
  rest_Members :
      (x : A) (xs ys : List A)
      → All (R x) xs
      → ((z : A) → Member z (x ∷ xs) → Member z (x ∷ ys))
      → (z : A) → Member z xs
      → Member z ys
  rest_Members x xs ys h sub z m = other (sub z (inr m))
    where
      other : (z ≡ x) ⊎ Member z ys → Member z ys
      other (inl e) = absurd (asym x x (self e) (self e))
        where
          self : z ≡ x → R x x
          self p = subst (λ w. R x w) p (All-member (R x) z xs h m)
      other (inr n) = n

  -- A strict order admits one arrangement only: two lists with the same members are the same.
  pub Ordered-unique :
      (xs ys : List A)
      → Ordered R xs
      → Ordered R ys
      → ((z : A) → Member z xs → Member z ys)
      → ((z : A) → Member z ys → Member z xs)
      → xs ≡ ys
  Ordered-unique [] [] h k sub sup = refl
  Ordered-unique [] (y ∷ ys) h k sub sup = absurd (sup y (inl refl))
  Ordered-unique (x ∷ xs) [] h k sub sup = absurd (sub x (inl refl))
  Ordered-unique (x ∷ xs) (y ∷ ys) h k sub sup =
      let e = heads (sub x (inl refl)) (sup y (inl refl)) in
      λ i.
        e i
        ∷ Ordered-unique xs ys h.1 k.1
            (rest_Members x xs ys h.0 (λ z m. subst (λ w. Member z (w ∷ ys)) (sym e) (sub z m)))
            (rest_Members y ys xs k.0 (λ z m. subst (λ w. Member z (w ∷ xs)) e (sup z m))) i
    where
      heads : (x ≡ y) ⊎ Member x ys → (y ≡ x) ⊎ Member y xs → x ≡ y
      heads (inl p) n = p
      heads (inr m) (inl p) = sym p
      heads (inr m) (inr n) =
          absurd (asym x y (All-member (R x) y xs h.0 n) (All-member (R y) x ys k.0 m))
