-- ===== src/System/Queue.antt =====
-- The messages on the queue: which jobs the tasks queue, and how often a message is retried.
use deribit_price_collector.Prelude.{
  ℕ, zero, suc, ◌≤◌, String, ◌≡◌, refl, inl, inr, Bool, true, false, Bool-cases, Option, none, some,
  List, [], ◌∷◌, ◌++◌, map, All, ltb, ltb→lt, ◌&&◌, arith, take, drop, length,
}
use deribit_price_collector.Prelude.Int.{ℤ, pos, negsuc, ◌-ℤ◌}
use deribit_price_collector.Exceptions.{Result, ok, err, >>=-eq-ok, ok_eq}
use deribit_price_collector.Config.{Config}
use deribit_price_collector.Providers.{HistoryRange, range_value}
use deribit_price_collector.Table.{Table}
use deribit_price_collector.Table.Engine.{Engine}
use deribit_price_collector.Tasks.Dispatch.{Job, chunks, chunked, dispatch_price_batches}
use deribit_price_collector.Tasks.Gaps.{resolve_reconciliation_range}
use deribit_price_collector.Tasks.Reconcile.{
  reconcile_recent_prices, check_tickers, schedule, select_tickers, effective_lookback,
}
use deribit_price_collector.Cli.{reconcile_main}
use deribit_price_collector.System.{
  Task, Message, World, first_message, follow_up, options, run_task, without_jobs,
}

abbrev pub NonEmpty : List String → Type 0
NonEmpty [] = ⊥
NonEmpty (x ∷ xs) = Unit

-- A job that makes sense: it names a ticker, and a range that the provider knows.
abbrev pub IsJob : Job → Type 0
IsJob (Job.fetch_price_batch tickers) = NonEmpty tickers
IsJob (Job.backfill_price_history tickers range_name) =
    NonEmpty tickers × ((r : HistoryRange) × (range_value r ≡ range_name))

abbrev pub IsTask : Task → Type 0
IsTask Task.dispatch = Unit
IsTask Task.reconcile = Unit
IsTask (Task.run job) = IsJob job

-- A message that may stand on the queue.
pub record IsMessage (m : Message) : Type 0 where
  pub task : IsTask m.task
  pub retries : m.retries ≤ (options m.task).max_retries

pub first_message-IsMessage : (task : Task) → IsTask task → IsMessage (first_message task)
first_message-IsMessage task h = record { task = h; retries = omega arith }

pub All-parts {ℓ κ} :
    {A : Type ℓ} (P : A → Type κ) (xs : List A) (y : A) (ys : List A)
    → All P (xs ++ y ∷ ys)
    → All P xs × P y × All P ys
All-parts P [] y ys h = (tt, h.0, h.1)
All-parts P (x ∷ xs) y ys h = let (a, b, d) = All-parts P xs y ys h.1 in ((h.0, a), b, d)

chunks-IsJob :
    (fuel size : ℕ) (xs : List String) → All IsJob (map Job.fetch_price_batch (chunks fuel size xs))
unfolding chunks
chunks-IsJob zero size xs = tt
chunks-IsJob (suc fuel) size xs =
    elim (take size xs)
      as (λ ys. All IsJob (
        map Job.fetch_price_batch
          (elim ys [ [] ↦ [] | x ∷ rest ↦ (x ∷ rest) ∷ chunks fuel size (drop size xs) ]))) [
            | [] ↦ tt
            | x ∷ rest ↦ (tt, chunks-IsJob fuel size (drop size xs))
          ]

chunked-IsJob :
    (size : ℤ) (xs : List String) (batches : List (List String))
    → chunked xs size ≡ ok batches
    → All IsJob (map Job.fetch_price_batch batches)
unfolding chunked
chunked-IsJob (pos size) xs batches h = rw (← ok_eq h) (chunks-IsJob (length xs) size xs)
chunked-IsJob (negsuc n) xs batches h = cc

dispatch-IsJob :
    (c : Config) (jobs : List Job) → dispatch_price_batches c ≡ ok jobs → All IsJob jobs
unfolding dispatch_price_batches
dispatch-IsJob c jobs h =
    let (batches, p, q) = >>=-eq-ok (chunked c.tickers c.price_batch_size) _ h in
    rw (← ok_eq q) (chunked-IsJob c.price_batch_size c.tickers batches p)

schedule-IsJob : (lookback : ℤ) (found : List String) → All IsJob (schedule lookback found)
unfolding schedule
schedule-IsJob lookback [] = tt
schedule-IsJob lookback (t ∷ ts) = ((tt, (resolve_reconciliation_range lookback, refl)), tt)

-- Whatever tickers it is asked for, a reconciliation queues only jobs that make sense.
reconcile-IsJob :
    (c : Config) (e : Engine) (now : ℤ) (tickers : Option (List String)) (lookback : Option ℤ)
    (t : Table) (jobs : List Job)
    → reconcile_recent_prices c e now tickers lookback t ≡ ok jobs
    → All IsJob jobs
unfolding reconcile_recent_prices
reconcile-IsJob c e now tickers lookback t jobs h =
    let lo : ℤ = now -ℤ effective_lookback c lookback in
    let (found, p, q) = >>=-eq-ok (check_tickers c e now lo t (select_tickers c tickers) []) _ h in
    rw (← ok_eq {a = schedule (effective_lookback c lookback) found} {b = jobs} q)
      (schedule-IsJob (effective_lookback c lookback) found)

pub reconcile_main-IsJob :
    (c : Config) (e : Engine) (now : ℤ) (tickers : Option (List String)) (lookback : Option ℤ)
    (t : Table) (jobs : List Job)
    → reconcile_main c e now tickers lookback t ≡ ok jobs
    → All IsJob jobs
unfolding reconcile_main
reconcile_main-IsJob c e now tickers none t jobs h = reconcile-IsJob c e now _ _ t jobs h
reconcile_main-IsJob c e now tickers (some seconds) t jobs h = reconcile-IsJob c e now _ _ t jobs h

pub jobs-IsMessage :
    (jobs : List Job)
    → All IsJob jobs
    → All IsMessage (map (λ (j : Job). first_message (Task.run j)) jobs)
jobs-IsMessage [] h = tt
jobs-IsMessage (j ∷ jobs) h = (first_message-IsMessage (Task.run j) h.0, jobs-IsMessage jobs h.1)

no_jobs :
    (out : Result (Unit {0}) × Table) (jobs : List Job)
    → (without_jobs out).0 ≡ ok jobs
    → All IsJob jobs
no_jobs (ok u, t) jobs h = rw (← ok_eq h) tt
no_jobs (err x, t) jobs h = cc

run_task-IsJob :
    (c : Config) (w : World) (task : Task) (stored : Table) (jobs : List Job)
    → (run_task c w task stored).0 ≡ ok jobs
    → All IsJob jobs
unfolding run_task
run_task-IsJob c w Task.dispatch stored jobs h = dispatch-IsJob c jobs h
run_task-IsJob c w Task.reconcile stored jobs h = reconcile-IsJob c w.engine w.now _ _ stored jobs h
run_task-IsJob c w (Task.run (Job.fetch_price_batch tickers)) stored jobs h = no_jobs _ jobs h
run_task-IsJob c w (Task.run (Job.backfill_price_history tickers range_name)) stored jobs h =
    no_jobs _ jobs h

within :
    (m : Message) (b : Bool)
    → (b && ltb m.retries (options m.task).max_retries) ≡ true
    → suc m.retries ≤ (options m.task).max_retries
within m true h = ltb→lt m.retries (options m.task).max_retries h
within m false h = cc

-- A message of the queue leaves only such messages, and its retries stay within the limit.
pub follow_up-IsMessage :
    (c : Config) (w : World) (m : Message) (stored : Table) (r : Result (List Job))
    → (run_task c w m.task stored).0 ≡ r
    → IsMessage m
    → All IsMessage (follow_up m r)
unfolding follow_up
follow_up-IsMessage c w m stored (ok jobs) h v =
    jobs-IsMessage jobs (run_task-IsJob c w m.task stored jobs h)
follow_up-IsMessage c w m stored (err x) h v =
    elim (Bool-cases
      ((options m.task).autoretry_for x && ltb m.retries (options m.task).max_retries)) [
        | inl e ↦
            rw e (
              record { task = v.task; retries = within m ((options m.task).autoretry_for x) e },
              tt,
            )
        | inr e ↦ rw e tt
      ]
