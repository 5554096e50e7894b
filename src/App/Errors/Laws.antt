-- ===== src/App/Errors/Laws.antt =====
-- `normalize_validation_errors` of app/main.py.
use deribit_price_collector.Prelude.{
  suc, String, ◌≡◌, refl, Option, none, some, List, [], ◌∷◌, length, All, ap,
}
use deribit_price_collector.App.Errors.{
  ErrorValue, exception_object, text, ErrorContext, ErrorItem, normalize_item,
  normalize_validation_errors,
}

-- Nothing that JSON cannot hold is left in an error: no exception object.
abbrev IsTextValue : Option ErrorValue → Type 0
IsTextValue none = Unit
IsTextValue (some (text s)) = Unit
IsTextValue (some (exception_object s)) = ⊥

abbrev IsTextContext : Option ErrorContext → Type 0
IsTextContext none = Unit
IsTextContext (some c) = IsTextValue c.error

abbrev pub IsPlain : ErrorItem → Type 0
IsPlain error = IsTextContext error.ctx

context-IsPlain :
    (ctx : Option ErrorContext) (others : List (String × String))
    → IsPlain (normalize_item (record { ctx = ctx; others = others }))
context-IsPlain none others = tt
context-IsPlain (some c) others = value_plain c.error
  where
    value_plain :
        (v : Option ErrorValue)
        → IsPlain (normalize_item (record { ctx = some (record c { error = v }); others = others }))
    value_plain none = tt
    value_plain (some v) = tt

context_kept :
    (ctx : Option ErrorContext) (others : List (String × String))
    → IsTextContext ctx
    → normalize_item (record { ctx = ctx; others = others }) ≡ record { ctx = ctx; others = others }
context_kept none others h = refl
context_kept (some c) others h = value_kept c.error h
  where
    value_kept :
        (v : Option ErrorValue)
        → IsTextValue v
        → normalize_item (record { ctx = some (record c { error = v }); others = others })
          ≡ record { ctx = some (record c { error = v }); others = others }
    value_kept none k = refl
    value_kept (some (text s)) k = refl
    value_kept (some (exception_object s)) k = absurd k

-- Every error can be written as JSON after it; no error is lost, and none that could be written
-- already is changed.
pub normalize_validation_errors_lem :
    (errors : List ErrorItem)
    → All IsPlain (normalize_validation_errors errors)
      × (length (normalize_validation_errors errors) ≡ length errors)
      × (All IsPlain errors → normalize_validation_errors errors ≡ errors)
unfolding normalize_validation_errors
normalize_validation_errors_lem [] = (tt, refl, λ h. refl)
normalize_validation_errors_lem (error ∷ errors) =
    let (p, q, k) = normalize_validation_errors_lem errors in
    (
      (context-IsPlain error.ctx error.others, p),
      ap suc q,
      λ h j. context_kept error.ctx error.others h.0 j ∷ k h.1 j,
    )
