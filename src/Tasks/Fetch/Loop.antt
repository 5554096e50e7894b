-- ===== src/Tasks/Fetch/Loop.antt =====
-- The loop of `fetch_price_batch`: what the batch holds after any tickers, against a plain account
-- of the quotes that the client gave.
use deribit_price_collector.Prelude.{
  ◌+◌, str_eq, ◌&&◌, String, ◌≡◌, refl, ap, sym, ◌∙◌, inl, inr, Bool, Option, some, List, [], ◌∷◌,
  ◌++◌, append-nil, append_assoc, length, length-append, arith, Bool-cases, if◌then◌else◌,
}
use deribit_price_collector.Prelude.Int.{ℤ, eq_ℤ}
use deribit_price_collector.Exceptions.{
  Exn, Result, ok, err, is_collection_permanent, is_collection_transient, kinds_disjoint, >>=-eq-ok,
  ok_eq,
}
use deribit_price_collector.Config.{Config}
use deribit_price_collector.Table.{Price, Table}
use deribit_price_collector.Table.Engine.{Engine, IsEngine}
use deribit_price_collector.Table.Unique.{IsTable}
use deribit_price_collector.Table.Unique.Write.{price_at, put}
use deribit_price_collector.Repository.{save_price}
use deribit_price_collector.Repository.Save.{save_price-put, save_price_foreign}
use deribit_price_collector.Client.{Http, get_index_price_time}
use deribit_price_collector.Tasks.Fetch.{Batch, note_outcome, fetch_ticker, fetch_tickers}

-- A price that is to be stored: ticker, price and time.
abbrev pub Point : Type 0
Point = String × ℤ × ℤ

abbrev pub View : Type 0
View = String → ℤ → Option ℤ

-- The points put into the view one after the other.
abbrev pub put_all : List Point → View → View
put_all [] view = view
put_all ((ticker, price, timestamp) ∷ points) view =
    put_all points (put view ticker timestamp price)

abbrev pub quote_of : String → Result (ℤ × ℤ) → List Point
quote_of ticker (ok (price, timestamp)) = (ticker, price, timestamp) ∷ []
quote_of ticker (err exc) = []

-- The quotes that the client gives for the tickers, in their order.
abbrev pub quotes : Config → Http → List String → List Point
quotes c http [] = []
quotes c http (ticker ∷ tickers) =
    quote_of ticker (get_index_price_time c http ticker) ++ quotes c http tickers

-- The tickers for which the client raises an exception that the test accepts.
abbrev pub failed_of : (Exn → Bool) → String → Result (ℤ × ℤ) → List (String × Exn)
failed_of kind ticker (ok quote) = []
failed_of kind ticker (err exc) = if kind exc then (ticker, exc) ∷ [] else []

abbrev pub failures : (Exn → Bool) → Config → Http → List String → List (String × Exn)
failures kind c http [] = []
failures kind c http (ticker ∷ tickers) =
    failed_of kind ticker (get_index_price_time c http ticker) ++ failures kind c http tickers

-- Two views that agree everywhere.
abbrev pub SameView : View → View → Type 0
SameView f g = (a : String) (b : ℤ) → f a b ≡ g a b

pub put_all-SameView :
    (points : List Point) {f g : View}
    → SameView f g
    → SameView (put_all points f) (put_all points g)
put_all-SameView [] h = h
put_all-SameView ((ticker, price, timestamp) ∷ points) {f} {g} h =
    put_all-SameView points
      (λ a b. ap (λ z. if (str_eq ticker a && eq_ℤ timestamp b) then some price else z) (h a b))

pub put_all-append :
    (xs ys : List Point) (f : View) → put_all (xs ++ ys) f ≡ put_all ys (put_all xs f)
put_all-append [] ys f = refl
put_all-append ((ticker, price, timestamp) ∷ xs) ys f =
    put_all-append xs ys (put f ticker timestamp price)

-- What the loop has done between two of its rounds.
pub record Progress (done : List Point) (failed_permanent failed_transient : List (String × Exn))
    (b b' : Batch) : Type 0 where
  pub valid : IsTable b'.visible
  pub view : SameView (price_at b'.visible) (put_all done (price_at b.visible))
  pub counted : b'.success_count ≡ b.success_count + length done
  pub permanent : b'.permanent_failures ≡ b.permanent_failures ++ failed_permanent
  pub transient : b'.transient_failures ≡ b.transient_failures ++ failed_transient

module _ (c : Config) (http : Http) (e : Engine) (law : IsEngine e) where
  saved :
      (ticker : String) (price timestamp : ℤ) (b b' : Batch) (r : Result (Price × Table))
      → IsTable b.visible
      → save_price e ticker price timestamp b.visible ≡ r
      → note_outcome ticker b r ≡ ok b'
      → Progress ((ticker, price, timestamp) ∷ []) [] [] b b'
  unfolding note_outcome
  saved ticker price timestamp b b' (ok out) v p h =
      let (w, s) = save_price-put e law ticker price timestamp b.visible out v p in
      rw (← ok_eq h) (record {
        valid = w;
        view = s;
        counted = refl;
        permanent = sym (append-nil b.permanent_failures);
        transient = sym (append-nil b.transient_failures);
      })
  saved ticker price timestamp b b' (err x) v p h =
      let (f, g) = save_price_foreign e law ticker price timestamp b.visible x v p in
      cc (rw (f, g) at h)

  unmoved :
      (b b' : Batch) (permanent transient ps ts : List (String × Exn))
      → IsTable b.visible
      → permanent ≡ b.permanent_failures ++ ps
      → transient ≡ b.transient_failures ++ ts
      → ok (record b { permanent_failures = permanent; transient_failures = transient }) ≡ ok b'
      → Progress [] ps ts b b'
  unmoved b b' permanent transient ps ts v p q k = rw (← ok_eq k) (record {
    valid = v;
    view = λ a n. refl;
    counted = omega arith;
    permanent = p;
    transient = q;
  })

  missed :
      (ticker : String) (b b' : Batch) (x : Exn)
      → IsTable b.visible
      → note_outcome ticker b (err x) ≡ ok b'
      → Progress []
          (failed_of is_collection_permanent ticker (err x))
          (failed_of is_collection_transient ticker (err x))
          b
          b'
  unfolding note_outcome
  missed ticker b b' x v h = elim (Bool-cases (is_collection_permanent x)) [
    | inl f ↦
        rw (f, kinds_disjoint x f)
          (unmoved b b' _ b.transient_failures _ [] v refl (sym (append-nil b.transient_failures))
            (rw f at h))
    | inr f ↦ elim (Bool-cases (is_collection_transient x)) [
      | inl g ↦
          rw (f, g)
            (unmoved b b' b.permanent_failures _ [] _ v (sym (append-nil b.permanent_failures)) refl
              (rw (f, g) at h))
      | inr g ↦ cc (rw (f, g) at h)
    ]
  ]

  pub round :
      (ticker : String) (b b' : Batch) (r : Result (ℤ × ℤ))
      → IsTable b.visible
      → get_index_price_time c http ticker ≡ r
      → note_outcome ticker b (fetch_ticker c http e ticker b.visible) ≡ ok b'
      → Progress
          (quote_of ticker r)
          (failed_of is_collection_permanent ticker r)
          (failed_of is_collection_transient ticker r)
          b
          b'
  unfolding fetch_ticker
  round ticker b b' (ok (price, timestamp)) v p h =
      saved ticker price timestamp b b' (save_price e ticker price timestamp b.visible) v refl
        (rw p at h)
  round ticker b b' (err x) v p h = missed ticker b b' x v (rw p at h)

  Progress-trans :
      (p₁ p₂ : List Point) (f₁ f₂ g₁ g₂ : List (String × Exn)) (a b d : Batch)
      → Progress p₁ f₁ g₁ a b
      → Progress p₂ f₂ g₂ b d
      → Progress (p₁ ++ p₂) (f₁ ++ f₂) (g₁ ++ g₂) a d
  Progress-trans p₁ p₂ f₁ f₂ g₁ g₂ a b d x y = record {
    valid = y.valid;
    view = rw put_all-append (λ k n. y.view k n ∙ put_all-SameView p₂ x.view k n);
    counted = omega (arith, x.counted, y.counted, length-append p₁ p₂);
    permanent =
        y.permanent ∙ ap (λ z. z ++ f₂) x.permanent ∙ append_assoc a.permanent_failures f₁ f₂;
    transient =
        y.transient ∙ ap (λ z. z ++ g₂) x.transient ∙ append_assoc a.transient_failures g₁ g₂;
  }

  -- If the loop ends with no unexpected exception, the rows are valid and hold the quotes in their
  -- order on top of what was there, the successes are counted, and every ticker that failed stands in
  -- the list of its kind.
  pub fetch_tickers-Progress :
      (tickers : List String) (b b' : Batch)
      → IsTable b.visible
      → fetch_tickers c http e tickers b ≡ ok b'
      → Progress
          (quotes c http tickers)
          (failures is_collection_permanent c http tickers)
          (failures is_collection_transient c http tickers)
          b
          b'
  unfolding fetch_tickers
  fetch_tickers-Progress [] b b' v h =
      unmoved b b' b.permanent_failures b.transient_failures [] [] v
        (sym (append-nil b.permanent_failures)) (sym (append-nil b.transient_failures)) h
  fetch_tickers-Progress (ticker ∷ tickers) b b' v h =
      let (z, p, q) =
        >>=-eq-ok (note_outcome ticker b (fetch_ticker c http e ticker b.visible)) _ h in
      let first = round ticker b z (get_index_price_time c http ticker) v refl p in
      Progress-trans _ _ _ _ _ _ b z b' first (fetch_tickers-Progress tickers z b' first.valid q)
