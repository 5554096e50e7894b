-- ===== src/System.antt =====
-- The collector as a whole, as collector/tasks.py configures it: the beat schedule, the queue of
-- messages, and a worker that runs the tasks and follows the options in their decorators. Celery decides
-- when and in which order; that is a relation here, and every run that it may choose is one of its
-- derivations. A task is one step, since its session is one transaction.
pub mod Given
pub mod Invariant
pub mod Queue
pub mod Reached
pub mod Draining
pub mod Recovery
pub mod Healing
use deribit_price_collector.Prelude.{
  ℕ, suc, ◌+◌, String, ◌≡◌, Bool, true, false, Option, none, some, List, [], ◌∷◌, ◌++◌, map, ltb,
  ◌&&◌, if◌then◌else◌,
}
use deribit_price_collector.Prelude.Int.{ℤ}
use deribit_price_collector.Prelude.Order.{Member}
use deribit_price_collector.Exceptions.{Exn, Result, ok, err, is_batch_transient}
use deribit_price_collector.Config.{redis_url, Config}
use deribit_price_collector.Table.{Table}
use deribit_price_collector.Table.Engine.{Engine, IsEngine}
use deribit_price_collector.Client.{Http}
use deribit_price_collector.Tasks.Dispatch.{Job, dispatch_price_batches}
use deribit_price_collector.Tasks.Fetch
use deribit_price_collector.Tasks.Backfill
use deribit_price_collector.Tasks.Reconcile.{reconcile_recent_prices}
use deribit_price_collector.Cli.{backfill_main, reconcile_main}

-- The four tasks. Those with arguments are the jobs that the others queue.
pub data Task : Type 0 where
  dispatch reconcile : Task
  run : Job → Task

-- celery_app.conf.update: the queue and the results are in the same Redis.
pub record CeleryConf : Type 0 where
  pub broker_url : String
  pub result_backend : String
  pub timezone : String
  pub enable_utc : Bool
  pub task_ignore_result : Bool

unfoldable pub celery_conf : Config → CeleryConf
unfolding redis_url
celery_conf c = record {
  broker_url = redis_url c;
  result_backend = redis_url c;
  timezone = "UTC";
  enable_utc = true;
  task_ignore_result = true;
}

-- The options of the decorators: what becomes of a task that raised, and after how many seconds a message
-- that nobody took is dropped. The delays of the retries only say when.
pub record Options : Type 0 where
  pub autoretry_for : Exn → Bool
  pub max_retries : ℕ
  pub expires : ℕ

-- A decorator that names no exception to retry for.
abbrev pub never : ℕ → Options
never seconds = record { autoretry_for = λ x. false; max_retries = 0; expires = seconds }

-- autoretry_for=(PriceBatchTransientError,), retry_kwargs={"max_retries": 3}
abbrev pub three_times : ℕ → Options
three_times seconds = record {
  autoretry_for = is_batch_transient;
  max_retries = 3;
  expires = seconds;
}

unfoldable pub options : Task → Options
options dispatch = never 50
options reconcile = never 240
options (run (Job.fetch_price_batch tickers)) = three_times 50
options (run (Job.backfill_price_history tickers range_name)) = three_times 300

-- celery_app.conf.beat_schedule: the tasks with the seconds between two of their messages.
unfoldable pub beat_schedule : Config → List (Task × ℤ)
beat_schedule c =
    (dispatch, c.price_fetch_interval_sec) ∷ (reconcile, c.reconciliation_interval_sec) ∷ []

-- A message on the queue, with how often its task was retried.
pub record Message : Type 0 where
  pub task : Task
  pub retries : ℕ

abbrev pub first_message : Task → Message
first_message task = record { task = task; retries = 0 }

-- What a task finds when it runs.
pub record World : Type 0 where
  pub http : Http
  pub engine : Engine
  pub now : ℤ

-- A task that queues nothing.
abbrev pub without_jobs : Result (Unit {0}) × Table → Result (List Job) × Table
without_jobs (ok u, stored) = (ok [], stored)
without_jobs (err exc, stored) = (err exc, stored)

-- A run of a task on the committed rows: the jobs that it queued, or its exception, and the rows that
-- are committed afterwards.
unfoldable pub run_task : Config → World → Task → Table → Result (List Job) × Table
run_task c w dispatch stored = (dispatch_price_batches c, stored)
run_task c w reconcile stored = (reconcile_recent_prices c w.engine w.now none none stored, stored)
run_task c w (run (Job.fetch_price_batch tickers)) stored =
    without_jobs (Fetch.fetch_price_batch c w.http w.engine tickers stored)
run_task c w (run (Job.backfill_price_history tickers range_name)) stored =
    without_jobs (Backfill.backfill_price_history c w.http w.engine tickers range_name stored)

-- The messages that a run leaves: those of its jobs, or the message of a retry.
unfoldable pub follow_up : Message → Result (List Job) → List Message
unfolding options
follow_up m (ok jobs) = map (λ (j : Job). first_message (run j)) jobs
follow_up m (err exc) =
    if (options m.task).autoretry_for exc && ltb m.retries (options m.task).max_retries
    then record m { retries = suc m.retries } ∷ []
    else []

pub record System : Type 0 where
  pub queue : List Message
  pub stored : Table

-- The state before anything has run.
abbrev pub initial : System
initial = record { queue = []; stored = [] }

-- One worker that takes the first message.
unfoldable pub work : Config → World → System → System
work c w s = elim s.queue [
  | [] ↦ s
  | m ∷ after ↦ record {
    queue = after ++ follow_up m (run_task c w m.task s.stored).0;
    stored = (run_task c w m.task s.stored).1;
  }
]

-- Its rounds, each in a world of its own.
unfoldable pub work_through : Config → List World → System → System
work_through c [] s = s
work_through c (w ∷ ws) s = work_through c ws (work c w s)

-- One step, in a world that occurs: the beat queues a task; a worker takes any message; a message
-- expires or is lost; a command line tool runs.
pub data Step (c : Config) (Occurs : World → Type 0) (s u : System) : Type 0 where
  scheduled :
      (task : Task) (seconds : ℤ)
      → Member (task, seconds) (beat_schedule c)
      → u ≡ record s { queue = s.queue ++ first_message task ∷ [] }
      → Step c Occurs s u
  delivered :
      (before : List Message) (m : Message) (after : List Message) (w : World)
      → Occurs w
      → s.queue ≡ before ++ m ∷ after
      → u ≡ record {
        queue = before ++ (after ++ follow_up m (run_task c w m.task s.stored).0);
        stored = (run_task c w m.task s.stored).1;
      }
      → Step c Occurs s u
  expired :
      (before : List Message) (m : Message) (after : List Message)
      → s.queue ≡ before ++ m ∷ after
      → u ≡ record s { queue = before ++ after }
      → Step c Occurs s u
  backfill_tool :
      (tickers : Option (List String)) (range_name : String) (w : World)
      (end : Result (Unit {0}) × Table)
      → Occurs w
      → backfill_main c w.http w.engine tickers range_name s.stored ≡ some end
      → u ≡ record s { stored = end.1 }
      → Step c Occurs s u
  reconcile_tool :
      (tickers : Option (List String)) (lookback_seconds : Option ℤ) (w : World) (jobs : List Job)
      → Occurs w
      → reconcile_main c w.engine w.now tickers lookback_seconds s.stored ≡ ok jobs
      → u ≡ record s { queue = s.queue ++ map (λ (j : Job). first_message (run j)) jobs }
      → Step c Occurs s u

-- The states that runs from one state lead to.
pub data Reach (c : Config) (Occurs : World → Type 0) (s : System) : System → Type 0 where
  here : Reach c Occurs s s
  next : {u v : System} → Reach c Occurs s u → Step c Occurs u v → Reach c Occurs s v
