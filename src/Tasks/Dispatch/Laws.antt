-- ===== src/Tasks/Dispatch/Laws.antt =====
-- `chunked` cuts a list into full batches and a rest, and loses nothing.
use deribit_price_collector.Prelude.{
  ℕ, zero, suc, ◌≤◌, ◌<◌, String, ◌≡◌, refl, ap, ◌∙◌, List, [], ◌∷◌, ◌++◌, map, length, take, drop,
  take-append-drop, dec_lt, arith,
}
use deribit_price_collector.Prelude.Int.{pos}
use deribit_price_collector.Exceptions.{ok}
use deribit_price_collector.Config.{Config}
use deribit_price_collector.Tasks.Dispatch.{
  Job, fetch_price_batch, backfill_price_history, chunks, chunked, dispatch_price_batches,
}

abbrev pub concat {ℓ} : {A : Type ℓ} → List (List A) → List A
concat [] = []
concat (xs ∷ rest) = xs ++ concat rest

-- Every batch has `size` elements, but for the last, which has from one to `size`.
abbrev pub IsCut {ℓ} : {A : Type ℓ} → ℕ → List (List A) → Type 0
IsCut size [] = Unit
IsCut size (xs ∷ []) = (0 < length xs) × (length xs ≤ size)
IsCut size (xs ∷ ys ∷ rest) = (length xs ≡ size) × IsCut size (ys ∷ rest)

module _ {ℓ} {A : Type ℓ} where
  -- A short batch leaves nothing.
  drop_short : (n : ℕ) (xs : List A) → length (take n xs) < n → drop n xs ≡ []
  drop_short zero xs h = absurd (omega arith)
  drop_short (suc n) [] h = refl
  drop_short (suc n) (x ∷ xs) h = drop_short n xs (omega arith)

  length-take_le : (n : ℕ) (xs : List A) → length (take n xs) ≤ n
  length-take_le zero xs = omega arith
  length-take_le (suc n) [] = omega arith
  length-take_le (suc n) (x ∷ xs) = omega (arith, length-take_le n xs)

  length-drop_lt : (n : ℕ) (x : A) (xs : List A) → length (drop (suc n) (x ∷ xs)) ≤ length xs
  length-drop_lt zero x xs = omega arith
  length-drop_lt (suc n) x [] = omega arith
  length-drop_lt (suc n) x (y ∷ xs) = omega (arith, length-drop_lt n y xs)

  concat-chunks :
      (fuel size : ℕ) (xs : List A) → length xs ≤ fuel → concat (chunks fuel (suc size) xs) ≡ xs
  unfolding chunks
  concat-chunks zero size [] h = refl
  concat-chunks zero size (x ∷ xs) h = absurd (omega arith)
  concat-chunks (suc fuel) size [] h = refl
  concat-chunks (suc fuel) size (x ∷ xs) h =
      ap (λ ys. (x ∷ take size xs) ++ ys)
        (concat-chunks fuel size (drop size xs) (omega (arith, length-drop_lt size x xs)))
      ∙ take-append-drop (suc size) (x ∷ xs)

  IsCut-cons :
      (n : ℕ) (b : List A) (rest : List (List A))
      → 0 < length b
      → length b ≤ n
      → (length b < n → rest ≡ [])
      → IsCut n rest
      → IsCut n (b ∷ rest)
  IsCut-cons n b [] p q f h = (p, q)
  IsCut-cons n b (ys ∷ rest) p q f h = elim (dec_lt (length b) n) [
    | yes short ↦ cc (f short)
    | no full ↦ (omega arith, h)
  ]

  chunks-nil : (fuel size : ℕ) → chunks {A = A} fuel size [] ≡ []
  unfolding chunks
  chunks-nil zero size = refl
  chunks-nil (suc fuel) zero = refl
  chunks-nil (suc fuel) (suc size) = refl

  chunks-IsCut : (fuel size : ℕ) (xs : List A) → IsCut (suc size) (chunks fuel (suc size) xs)
  unfolding chunks
  chunks-IsCut zero size xs = tt
  chunks-IsCut (suc fuel) size [] = tt
  chunks-IsCut (suc fuel) size (x ∷ xs) =
      IsCut-cons (suc size) (x ∷ take size xs) (chunks fuel (suc size) (drop size xs)) (omega arith)
        (omega (arith, length-take_le size xs))
        (λ short. rw (drop_short size xs (omega arith)) (chunks-nil fuel (suc size)))
        (chunks-IsCut fuel size (drop size xs))

  -- With a positive size `chunked` raises nothing and cuts its input, in order and with nothing lost
  -- or repeated, into batches of that size and a last one that may be shorter but is not empty.
  pub chunked_lem :
      (xs : List A) (size : ℕ)
      → 0 < size
      → (batches : List (List A)) × (chunked xs (pos size) ≡ ok batches)
        × (concat batches ≡ xs)
        × IsCut size batches
  unfolding chunked
  chunked_lem xs zero h = absurd (omega arith)
  chunked_lem xs (suc size) h = (
    chunks (length xs) (suc size) xs,
    refl,
    concat-chunks (length xs) size xs (omega arith),
    chunks-IsCut (length xs) size xs,
  )

  -- A size of 0 gives no batch at all, whatever the input: every element is dropped.
  pub chunked_zero : (xs : List A) → chunked xs (pos 0) ≡ ok []
  unfolding chunked chunks
  chunked_zero [] = refl
  chunked_zero (x ∷ xs) = refl

-- The tickers of the jobs on the queue.
abbrev pub fetched : List Job → List String
fetched [] = []
fetched (fetch_price_batch tickers ∷ jobs) = tickers ++ fetched jobs
fetched (backfill_price_history tickers range_name ∷ jobs) = fetched jobs

fetched-map :
    (batches : List (List String)) → fetched (map fetch_price_batch batches) ≡ concat batches
fetched-map [] = refl
fetched-map (b ∷ batches) = ap (λ xs. b ++ xs) (fetched-map batches)

-- With a positive batch size every configured ticker is dispatched, in order and exactly once, in
-- jobs of that many tickers and a last one that may have fewer, but has one at least.
pub dispatch_price_batches_lem :
    (c : Config) (size : ℕ)
    → c.price_batch_size ≡ pos size
    → 0 < size
    → (batches : List (List String)) × (dispatch_price_batches c
        ≡ ok (map fetch_price_batch batches))
      × (fetched (map fetch_price_batch batches) ≡ c.tickers)
      × IsCut size batches
unfolding dispatch_price_batches
dispatch_price_batches_lem c size h p =
    let (batches, q, r, s) = chunked_lem c.tickers size p in
    (batches, rw (h, q), fetched-map batches ∙ r, s)

-- With a batch size of 0 no ticker is ever dispatched, and nothing is raised.
pub dispatch_price_batches_zero :
    (c : Config) → c.price_batch_size ≡ pos 0 → dispatch_price_batches c ≡ ok []
unfolding dispatch_price_batches
dispatch_price_batches_zero c h = rw (h, chunked_zero c.tickers)
