-- ===== src/Tasks/Dispatch.antt =====
-- collector/tasks.py: `chunked` and `dispatch_price_batches`.
pub mod Laws
use deribit_price_collector.Prelude.{ℕ, zero, suc, String, List, [], ◌∷◌, map, length, take, drop}
use deribit_price_collector.Prelude.Int.{ℤ, pos, negsuc}
use deribit_price_collector.Exceptions.{Result, ok, err, value_error, ◌>>=◌}
use deribit_price_collector.Config.{Config}

-- What is put on the queue.
pub data Job : Type 0 where
  fetch_price_batch : List String → Job
  backfill_price_history : List String → String → Job

-- The `while` loop of `chunked`, on the elements that are left. Each round takes one element at
-- least, so their number is enough fuel.
unfoldable pub chunks {ℓ} : {A : Type ℓ} → ℕ → ℕ → List A → List (List A)
chunks zero size xs = []
chunks (suc fuel) size xs = elim (take size xs) [
  | [] ↦ []
  | x ∷ batch ↦ (x ∷ batch) ∷ chunks fuel size (drop size xs)
]

-- chunked(iterable, size): `islice` refuses a negative size with `ValueError`.
unfoldable pub chunked {ℓ} : {A : Type ℓ} → List A → ℤ → Result (List (List A))
chunked xs (pos size) = ok (chunks (length xs) size xs)
chunked xs (negsuc n) = err value_error

unfoldable pub dispatch_price_batches : Config → Result (List Job)
dispatch_price_batches c = do
  batches ← chunked c.tickers c.price_batch_size
  ok (map fetch_price_batch batches)
