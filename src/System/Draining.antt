-- ===== src/System/Draining.antt =====
-- When nothing more is scheduled, the queue runs empty: retries and the jobs that tasks queue come to an
-- end.
use deribit_price_collector.Prelude.{
  ℕ, zero, suc, ◌+◌, ◌-◌, ◌*◌, ◌≤◌, ◌<◌, String, ◌≡◌, refl, ap, inl, inr, true, Bool-cases, Option,
  List, [], ◌∷◌, ◌++◌, map, ltb, ltb→lt, arith, take, drop, length,
}
use deribit_price_collector.Prelude.Int.{ℤ, pos, negsuc, ◌-ℤ◌}
use deribit_price_collector.Exceptions.{Result, ok, err, >>=-eq-ok, ok_eq}
use deribit_price_collector.Config.{Config}
use deribit_price_collector.Table.{Table}
use deribit_price_collector.Table.Engine.{Engine}
use deribit_price_collector.Tasks.Dispatch.{Job, chunks, chunked, dispatch_price_batches}
use deribit_price_collector.Tasks.Reconcile.{
  reconcile_recent_prices, check_tickers, schedule, select_tickers, effective_lookback,
}
use deribit_price_collector.System.{
  Task, Message, World, System, first_message, follow_up, options, run_task, without_jobs,
}

-- A bound on the deliveries that a message of a task causes after so many retries, its own counted.
abbrev pub weight_of : Config → ℕ → Task → ℕ
weight_of c retries Task.dispatch = 1 + 4 * length c.tickers
weight_of c retries Task.reconcile = 5
weight_of c retries (Task.run job) = 1 + (3 - retries)

abbrev pub weight : Config → Message → ℕ
weight c m = weight_of c m.retries m.task

abbrev pub weights : Config → List Message → ℕ
weights c [] = 0
weights c (m ∷ ms) = weight c m + weights c ms

weights-append :
    (c : Config) (xs ys : List Message) → weights c (xs ++ ys) ≡ weights c xs + weights c ys
weights-append c [] ys = omega arith
weights-append c (m ∷ xs) ys = omega (arith, weights-append c xs ys)

weights_of_jobs :
    (c : Config) (jobs : List Job)
    → weights c (map (λ (j : Job). first_message (Task.run j)) jobs) ≡ 4 * length jobs
weights_of_jobs c [] = refl
weights_of_jobs c (j ∷ jobs) = omega (arith, weights_of_jobs c jobs)

length-map {ℓ κ} :
    {A : Type ℓ} {B : Type κ} (f : A → B) (xs : List A) → length (map f xs) ≡ length xs
length-map f [] = refl
length-map f (x ∷ xs) = ap suc (length-map f xs)

length-chunks : (fuel size : ℕ) (xs : List String) → length (chunks fuel size xs) ≤ fuel
unfolding chunks
length-chunks zero size xs = omega arith
length-chunks (suc fuel) size xs =
    elim (take size xs)
      as (λ ys.
        length (elim ys [ [] ↦ [] | x ∷ rest ↦ (x ∷ rest) ∷ chunks fuel size (drop size xs) ])
        ≤ suc fuel) [
          | [] ↦ omega arith
          | x ∷ rest ↦ omega (arith, length-chunks fuel size (drop size xs))
        ]

length-chunked :
    (size : ℤ) (xs : List String) (batches : List (List String))
    → chunked xs size ≡ ok batches
    → length batches ≤ length xs
unfolding chunked
length-chunked (pos size) xs batches h = rw (← ok_eq h) (length-chunks (length xs) size xs)
length-chunked (negsuc n) xs batches h = cc

length-dispatch :
    (c : Config) (jobs : List Job)
    → dispatch_price_batches c ≡ ok jobs
    → length jobs ≤ length c.tickers
unfolding dispatch_price_batches
length-dispatch c jobs h =
    let (batches, p, q) = >>=-eq-ok (chunked c.tickers c.price_batch_size) _ h in
    rw (← ok_eq {a = map Job.fetch_price_batch batches} {b = jobs} q, length-map)
      (length-chunked c.price_batch_size c.tickers batches p)

length-schedule : (lookback : ℤ) (found : List String) → length (schedule lookback found) ≤ 1
unfolding schedule
length-schedule lookback [] = omega arith
length-schedule lookback (t ∷ ts) = omega arith

length-reconcile :
    (c : Config) (e : Engine) (now : ℤ) (tickers : Option (List String)) (lookback : Option ℤ)
    (t : Table) (jobs : List Job)
    → reconcile_recent_prices c e now tickers lookback t ≡ ok jobs
    → length jobs ≤ 1
unfolding reconcile_recent_prices
length-reconcile c e now tickers lookback t jobs h =
    let lo : ℤ = now -ℤ effective_lookback c lookback in
    let (found, p, q) = >>=-eq-ok (check_tickers c e now lo t (select_tickers c tickers) []) _ h in
    rw (← ok_eq {a = schedule (effective_lookback c lookback) found} {b = jobs} q)
      (length-schedule (effective_lookback c lookback) found)

length-without_jobs :
    (out : Result (Unit {0}) × Table) (jobs : List Job)
    → (without_jobs out).0 ≡ ok jobs
    → length jobs ≡ 0
length-without_jobs (ok u, t) jobs h = rw (← ok_eq h) refl
length-without_jobs (err x, t) jobs h = cc

-- The jobs that a task has queued weigh less than its message.
jobs-lighter :
    (c : Config) (w : World) (task : Task) (retries : ℕ) (stored : Table) (jobs : List Job)
    → (run_task c w task stored).0 ≡ ok jobs
    → 4 * length jobs < weight_of c retries task
unfolding run_task
jobs-lighter c w Task.dispatch retries stored jobs h = omega (arith, length-dispatch c jobs h)
jobs-lighter c w Task.reconcile retries stored jobs h =
    omega (arith, length-reconcile c w.engine w.now _ _ stored jobs h)
jobs-lighter c w (Task.run (Job.fetch_price_batch tickers)) retries stored jobs h =
    omega (arith, length-without_jobs _ jobs h)
jobs-lighter c w (Task.run (Job.backfill_price_history tickers range_name)) retries stored jobs h =
    omega (arith, length-without_jobs _ jobs h)

-- So does the message of a retry.
retry-lighter :
    (c : Config) (task : Task) (retries : ℕ)
    → ltb retries (options task).max_retries ≡ true
    → weight_of c (suc retries) task < weight_of c retries task
unfolding options
retry-lighter c Task.dispatch retries h = absurd (omega (arith, ltb→lt retries 0 h))
retry-lighter c Task.reconcile retries h = absurd (omega (arith, ltb→lt retries 0 h))
retry-lighter c (Task.run (Job.fetch_price_batch tickers)) retries h =
    omega (arith, ltb→lt retries 3 h)
retry-lighter c (Task.run (Job.backfill_price_history tickers range_name)) retries h =
    omega (arith, ltb→lt retries 3 h)

weight-pos : (c : Config) (retries : ℕ) (task : Task) → 0 < weight_of c retries task
weight-pos c retries Task.dispatch = omega arith
weight-pos c retries Task.reconcile = omega arith
weight-pos c retries (Task.run job) = omega arith

follow_up-lighter :
    (c : Config) (w : World) (m : Message) (stored : Table) (r : Result (List Job))
    → (run_task c w m.task stored).0 ≡ r
    → weights c (follow_up m r) < weight c m
unfolding follow_up
follow_up-lighter c w m stored (ok jobs) h =
    omega (arith, weights_of_jobs c jobs, jobs-lighter c w m.task m.retries stored jobs h)
follow_up-lighter c w m stored (err x) h = elim (Bool-cases ((options m.task).autoretry_for x)) [
  | inl f ↦ elim (Bool-cases (ltb m.retries (options m.task).max_retries)) [
    | inl g ↦ rw (f, g) (omega (arith, retry-lighter c m.task m.retries g))
    | inr g ↦ rw (f, g) (weight-pos c m.retries m.task)
  ]
  | inr f ↦ rw f (weight-pos c m.retries m.task)
]

-- Deliveries one after the other, in any order of the messages, and losses; their number.
pub data Working (c : Config) (Occurs : World → Type 0) (s : System) : ℕ → System → Type 0 where
  idle : Working c Occurs s 0 s
  worked :
      {n : ℕ} {u : System} (before : List Message) (m : Message) (after : List Message) (w : World)
      → Working c Occurs s n u
      → Occurs w
      → u.queue ≡ before ++ m ∷ after
      → Working c Occurs s (suc n) (record {
        queue = before ++ (after ++ follow_up m (run_task c w m.task u.stored).0);
        stored = (run_task c w m.task u.stored).1;
      })
  lost :
      {n : ℕ} {u : System} (before : List Message) (m : Message) (after : List Message)
      → Working c Occurs s n u
      → u.queue ≡ before ++ m ∷ after
      → Working c Occurs s (suc n) (record u { queue = before ++ after })

-- When nothing more is scheduled and no tool runs, the work ends, in whatever order the messages are
-- delivered and whatever the world does: the deliveries and losses that can follow on a state are at
-- most as many as the sum of these bounds over its queue: 1 and the retries that are left for a job,
-- 5 for a reconciliation, and 1 and 4 for each configured ticker for a dispatch.
pub Working-ends :
    (c : Config) (Occurs : World → Type 0) {s u : System} {n : ℕ}
    → Working c Occurs s n u
    → n + weights c u.queue ≤ weights c s.queue
Working-ends c Occurs idle = omega arith
Working-ends c Occurs (worked {u = mid} before m after w r o q) =
    let tail : List Message = follow_up m (run_task c w m.task mid.stored).0 in
    omega (
      arith,
      Working-ends c Occurs r,
      ap (weights c) q,
      weights-append c before (m ∷ after),
      weights-append c before (after ++ tail),
      weights-append c after tail,
      follow_up-lighter c w m mid.stored _ refl,
    )
Working-ends c Occurs (lost {u = mid} before m after r q) = omega (
  arith,
  Working-ends c Occurs r,
  ap (weights c) q,
  weights-append c before (m ∷ after),
  weights-append c before after,
  weight-pos c m.retries m.task,
)
