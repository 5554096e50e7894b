-- ===== src/Prelude/Dict.antt =====
-- Python's dict, as the code builds it: pairs in the order in which a key was first used.
use mathlib.Core.Path.{◌≡◌, refl, sym, ap, ◌∙◌}
use mathlib.Core.Logic.{inl, inr}
use mathlib.Core.Bool.{false}
use mathlib.Core.Option.{Option, none, some}
use mathlib.Core.List.{List, [], ◌∷◌}
use Prim.Native.String.{String}
use deribit_price_collector.Prelude.Tests.{if◌then◌else◌, Bool-cases}
use deribit_price_collector.Prelude.Text.{str_eq, str_eq_iff, str_eq_refl}
use deribit_price_collector.Prelude.Order.{Member}

abbrev pub Dict : Type 0 → Type 0
Dict V = List (String × V)

module _ {V : Type 0} where
  -- d[key] = value
  unfoldable pub put : String → V → Dict V → Dict V
  put key value [] = (key, value) ∷ []
  put key value ((k, w) ∷ d) =
      let rest = put key value d in if str_eq k key then (k, value) ∷ d else (k, w) ∷ rest

  -- d.get(key)
  unfoldable pub lookup : String → Dict V → Option V
  lookup key [] = none
  lookup key ((k, w) ∷ d) = if str_eq k key then some w else lookup key d

  -- d.update(pairs)
  unfoldable pub update : Dict V → List (String × V) → Dict V
  unfolding put
  update d [] = d
  update d ((k, w) ∷ pairs) = update (put k w d) pairs

  -- {k: v for k, v in pairs}
  unfoldable pub dict_of : List (String × V) → Dict V
  unfolding update
  dict_of pairs = update [] pairs

  lookup-put_same :
      (key : String) (value : V) (d : Dict V) → lookup key (put key value d) ≡ some value
  unfolding lookup put
  lookup-put_same key value [] = rw (str_eq_refl key)
  lookup-put_same key value ((k, w) ∷ d) = elim (Bool-cases (str_eq k key)) [
    | inl e ↦ rw e (rw e)
    | inr e ↦ rw e (rw e (lookup-put_same key value d))
  ]

  lookup-put_other :
      (key k : String) (value : V) (d : Dict V)
      → str_eq k key ≡ false
      → lookup key (put k value d) ≡ lookup key d
  unfolding lookup put
  lookup-put_other key k value [] h = rw h
  lookup-put_other key k value ((j, w) ∷ d) h = elim (Bool-cases (str_eq j k)) [
    | inl e ↦ let p = (str_eq_iff j k).0 e in rw (e, p, h)
    | inr e ↦ rw e (elim (Bool-cases (str_eq j key)) [
      | inl f ↦ rw f
      | inr f ↦ rw f (lookup-put_other key k value d h)
    ])
  ]

  -- A key that every pair gives the same value, and that is there or in a pair, has that value.
  lookup-update_kept :
      (key : String) (value : V) (d : Dict V) (pairs : List (String × V))
      → ((w : V) → Member (key, w) pairs → w ≡ value)
      → lookup key d ≡ some value
      → lookup key (update d pairs) ≡ some value
  unfolding update
  lookup-update_kept key value d [] only h = h
  lookup-update_kept key value d ((k, w) ∷ pairs) only h = elim (Bool-cases (str_eq k key)) [
    | inl e ↦
        let p = (str_eq_iff k key).0 e in
        lookup-update_kept key value (put k w d) pairs (λ u m. only u (inr m))
          (rw p (lookup-put_same key w d ∙ ap some (only w (inl (λ i. (sym p i, w))))))
    | inr e ↦
        lookup-update_kept key value (put k w d) pairs (λ u m. only u (inr m))
          (lookup-put_other key k w d e ∙ h)
  ]

  lookup-update_new :
      (key : String) (value : V) (d : Dict V) (pairs : List (String × V))
      → ((w : V) → Member (key, w) pairs → w ≡ value)
      → Member (key, value) pairs
      → lookup key (update d pairs) ≡ some value
  unfolding update
  lookup-update_new key value d [] only m = absurd m
  lookup-update_new key value d ((k, w) ∷ pairs) only (inl e) =
      lookup-update_kept key value (put k w d) pairs (λ u m. only u (inr m))
        (rw (← ap (λ z. z.0) e, ← ap (λ z. z.1) e) (lookup-put_same key value d))
  lookup-update_new key value d ((k, w) ∷ pairs) only (inr m) =
      lookup-update_new key value (put k w d) pairs (λ u n. only u (inr n)) m

  lookup-update_none :
      (key : String) (d : Dict V) (pairs : List (String × V))
      → ((w : V) → Member (key, w) pairs → ⊥)
      → lookup key (update d pairs) ≡ lookup key d
  unfolding update
  lookup-update_none key d [] h = refl
  lookup-update_none key d ((k, w) ∷ pairs) h = elim (Bool-cases (str_eq k key)) [
    | inl e ↦ absurd (h w (inl (λ i. (sym ((str_eq_iff k key).0 e) i, w))))
    | inr e ↦
        lookup-update_none key (put k w d) pairs (λ u m. h u (inr m)) ∙ lookup-put_other key k w d e
  ]

  pub lookup-dict_of :
      (key : String) (value : V) (pairs : List (String × V))
      → ((w : V) → Member (key, w) pairs → w ≡ value)
      → Member (key, value) pairs
      → lookup key (dict_of pairs) ≡ some value
  unfolding dict_of
  lookup-dict_of key value pairs only m = lookup-update_new key value [] pairs only m

  pub lookup-dict_of-none :
      (key : String) (pairs : List (String × V))
      → ((w : V) → Member (key, w) pairs → ⊥)
      → lookup key (dict_of pairs) ≡ none
  unfolding dict_of lookup
  lookup-dict_of-none key pairs h = lookup-update_none key [] pairs h
