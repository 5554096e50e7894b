-- ===== src/System/Invariant.antt =====
-- What holds in every state that a run of the collector reaches, whatever order Celery chooses.
use deribit_price_collector.Prelude.{
  String, ◌≡◌, refl, sym, ap, ◌∙◌, ◌⊎◌, inl, inr, Option, some, List,
}
use deribit_price_collector.Prelude.Int.{ℤ}
use deribit_price_collector.Prelude.Order.{Member}
use deribit_price_collector.Exceptions.{Result, ok, err}
use deribit_price_collector.Config.{Config}
use deribit_price_collector.Table.{Table}
use deribit_price_collector.Table.Engine.{IsEngine}
use deribit_price_collector.Table.Unique.{IsTable}
use deribit_price_collector.Tasks.Dispatch.{Job}
use deribit_price_collector.Tasks.Fetch.Laws as FetchLaws
use deribit_price_collector.Tasks.Fetch.Loop.{Point, quotes}
use deribit_price_collector.Tasks.Backfill
use deribit_price_collector.Tasks.Backfill.Laws as BackfillLaws
use deribit_price_collector.Tasks.Backfill.Loop.{Saved, history}
use deribit_price_collector.Cli.{backfill_main, tickers_or_all}
use deribit_price_collector.Cli.Laws.{backfill_main_lem}
use deribit_price_collector.System.{
  Task, World, System, Step, scheduled, delivered, expired, backfill_tool, reconcile_tool, run_task,
  without_jobs,
}
use deribit_price_collector.System.Given.{Gave, quotes-Gave, history-Gave}

-- The points are prices that the client gave in this world.
abbrev pub AllGiven : Config → World → List Point → Type 0
AllGiven c w points =
    (ticker : String) (price timestamp : ℤ)
    → Member (ticker, price, timestamp) points
    → Gave c w.http ticker price timestamp

-- What a run of a task does to the rows: nothing, or it puts prices of the client on top of them.
abbrev pub Written : Config → World → Table → Table → Type 0
Written c w stored after =
    (after ≡ stored) ⊎ ((points : List Point) × AllGiven c w points × Saved points stored after)

fetched-Written :
    (c : Config) (w : World) (tickers : List String) (stored : Table)
    (out : Result (Unit {0}) × Table)
    → FetchLaws.Ended (quotes c w.http tickers) stored out
    → Written c w stored (without_jobs out).1
fetched-Written c w tickers stored (ok u, after) h = inr (
  quotes c w.http tickers,
  quotes-Gave c w.http tickers,
  record { valid = h.valid; view = h.view },
)
fetched-Written c w tickers stored (err x, after) h = inl h.0

backfilled-Written :
    (c : Config) (w : World) (tickers : List String) (range_name : String) (stored : Table)
    (out : Result (Unit {0}) × Table)
    → BackfillLaws.Ended c w.http tickers range_name stored out
    → Written c w stored out.1
backfilled-Written c w tickers range_name stored (ok u, after) (r, p, s) =
    inr (history c w.http r tickers, history-Gave c w.http r tickers, s)
backfilled-Written c w tickers range_name stored (err x, after) h = inl h

same_rows : (out : Result (Unit {0}) × Table) → (without_jobs out).1 ≡ out.1
same_rows (ok u, after) = refl
same_rows (err x, after) = refl

some_end : {end out : Result (Unit {0}) × Table} → some end ≡ some out → end ≡ out
some_end h = cc

module _ (c : Config) (w : World) (law : IsEngine w.engine) where
  backfill-Written :
      (tickers : List String) (range_name : String) (stored : Table)
      → IsTable stored
      → Written c w stored
          (Backfill.backfill_price_history c w.http w.engine tickers range_name stored).1
  backfill-Written tickers range_name stored v =
      backfilled-Written c w tickers range_name stored _ (
        BackfillLaws.backfill_price_history-Ended c w.http w.engine law tickers range_name stored v)

  pub run_task-Written :
      (task : Task) (stored : Table)
      → IsTable stored
      → Written c w stored (run_task c w task stored).1
  unfolding run_task
  run_task-Written Task.dispatch stored v = inl refl
  run_task-Written Task.reconcile stored v = inl refl
  run_task-Written (Task.run (Job.fetch_price_batch tickers)) stored v =
      fetched-Written c w tickers stored _
        (FetchLaws.fetch_price_batch-Ended c w.http w.engine law tickers stored v)
  run_task-Written (Task.run (Job.backfill_price_history tickers range_name)) stored v =
      rw (same_rows (Backfill.backfill_price_history c w.http w.engine tickers range_name stored))
        (backfill-Written tickers range_name stored v)

  backfill_main-Written :
      (tickers : Option (List String)) (range_name : String) (stored : Table)
      (end : Result (Unit {0}) × Table)
      → IsTable stored
      → backfill_main c w.http w.engine tickers range_name stored ≡ some end
      → Written c w stored end.1
  backfill_main-Written tickers range_name stored end v h =
      elim (backfill_main_lem c w.http w.engine tickers range_name stored).1 [
        | inl e ↦ cc (h, (backfill_main_lem c w.http w.engine tickers range_name stored).0.1 e)
        | inr e ↦
            rw (some_end (sym h ∙ e))
              (backfill-Written (tickers_or_all c tickers) range_name stored v)
      ]

-- What a step does to the rows: nothing, or it writes prices that the client gives in a world that
-- occurs.
abbrev pub Stepped : Config → (World → Type 0) → Table → Table → Type 0
Stepped c Occurs stored after =
    (after ≡ stored) ⊎ ((w : World) × Occurs w × Written c w stored after)

module _ (c : Config) (Occurs : World → Type 0)
    (law : (w : World) → Occurs w → IsEngine w.engine) where
  pub Step-Stepped :
      {s u : System} → IsTable s.stored → Step c Occurs s u → Stepped c Occurs s.stored u.stored
  Step-Stepped v (scheduled task seconds i h) = inl (ap (λ z. z.stored) h)
  Step-Stepped {s} {u} v (delivered before m after w o q h) =
      inr (w, o, rw h (run_task-Written c w (law w o) m.task s.stored v))
  Step-Stepped v (expired before m after q h) = inl (ap (λ z. z.stored) h)
  Step-Stepped {s} {u} v (backfill_tool tickers range_name w end o q h) =
      inr (w, o, rw h (backfill_main-Written c w (law w o) tickers range_name s.stored end v q))
  Step-Stepped v (reconcile_tool tickers lookback w jobs o q h) = inl (ap (λ z. z.stored) h)
