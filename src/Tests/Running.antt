-- ===== src/Tests/Running.antt =====
-- The collector as a whole, run on the server and the database of the other tests.
use deribit_price_collector.Prelude.{
  ◌+◌, ◌≤◌, ◌≡◌, refl, ◌⊎◌, inl, some, List, [], ◌∷◌, String, arith,
}
use deribit_price_collector.Prelude.Int.{ℤ, pos, ◌*ℤ◌}
use deribit_price_collector.Config.{default_config}
use deribit_price_collector.Table.Engine.{IsEngine}
use deribit_price_collector.Table.Unique.Write.{price_at}
use deribit_price_collector.Tasks.Dispatch.{Job, dispatch_price_batches, chunked, chunks}
use deribit_price_collector.Exceptions.{ok, err, http_error}
use deribit_price_collector.Providers.{deribit, build_sync_market_data_provider}
use deribit_price_collector.Config.{in_supported_tickers_set}
use deribit_price_collector.Table.{Table}
use deribit_price_collector.Table.Unique.{IsTable}
use deribit_price_collector.Repository.{save_price}
use deribit_price_collector.Client.{Http, fetch, parse_price, get_index_price_time}
use deribit_price_collector.Client.Value.{get, floor_million}
use deribit_price_collector.Prelude.Int.{floor_div}
use deribit_price_collector.Tasks.Fetch.{
  fetch_price_batch, collect, fetch_tickers, fetch_ticker, note_outcome, conclude,
}
use deribit_price_collector.Tasks.Fetch.Loop.{SameView, put_all, quotes}
use deribit_price_collector.System.{
  Task, Message, World, System, Reach, initial, here, next, scheduled, delivered, run_task,
  first_message, follow_up, beat_schedule, work_through,
}
use deribit_price_collector.System.Given.{Gave}
use deribit_price_collector.System.Reached.{Inv, reached-Inv, Reach-keeps}
use deribit_price_collector.System.Draining.{Working, Working-ends, weights, idle, worked}
use deribit_price_collector.System.Recovery.{Outage, Healthy, fetch_recovers, only_fetch}
use deribit_price_collector.Tests.Memory.{memory, memory-IsEngine, memory-Responds}
use deribit_price_collector.Tests.Env.{http, rows, rows-IsTable}

abbrev now_world : World
now_world = record { http = http; engine = memory; now = pos 1_700_000_060 }

abbrev Now : World → Type 0
Now w = w ≡ now_world

now-IsEngine : (w : World) → Now w → IsEngine w.engine
now-IsEngine w h = rw h memory-IsEngine

abbrev batch : Message
batch = first_message (Task.run (Job.fetch_price_batch ("btc_usd" ∷ "eth_usd" ∷ [])))

abbrev dispatched : System
dispatched = record { queue = first_message Task.dispatch ∷ []; stored = [] }

abbrev batched : System
batched = record {
  queue =
      follow_up (first_message Task.dispatch)
        (run_task default_config now_world Task.dispatch []).0;
  stored = (run_task default_config now_world Task.dispatch []).1;
}

queued : batched.queue ≡ batch ∷ []
unfolding follow_up run_task dispatch_price_batches chunked chunks
queued = refl

abbrev fetched : System
fetched = record {
  queue = follow_up batch (run_task default_config now_world batch.task batched.stored).0;
  stored = (run_task default_config now_world batch.task batched.stored).1;
}

fetched_reached : Reach default_config Now initial fetched
unfolding beat_schedule
fetched_reached =
    next
      (next (next here (scheduled Task.dispatch (pos 60) (inl refl) refl))
        (delivered [] (first_message Task.dispatch) [] now_world refl refl refl))
      (delivered [] batch [] now_world refl queued refl)

stored_price : price_at fetched.stored "btc_usd" (pos 1_700_000_000) ≡ some (pos 6_500_000_000_000)
unfolding run_task fetch_price_batch collect build_sync_market_data_provider fetch_tickers
    fetch_ticker note_outcome conclude get_index_price_time fetch in_supported_tickers_set
    parse_price get floor_million floor_div save_price memory ◌*ℤ◌
stored_price = refl

reached-Inv_example : Inv default_config Now fetched
reached-Inv_example = reached-Inv default_config Now now-IsEngine fetched_reached

Reach-keeps_example :
    (q : ℤ) × (price_at fetched.stored "btc_usd" (pos 1_700_000_000) ≡ some q)
    × ((q ≡ pos 6_500_000_000_000)
        ⊎ ((w : World) × Now w × Gave default_config w.http "btc_usd" q (pos 1_700_000_000)))
Reach-keeps_example =
    Reach-keeps default_config Now now-IsEngine "btc_usd" (pos 1_700_000_000)
      (pos 6_500_000_000_000) (reached-Inv default_config Now now-IsEngine fetched_reached) here
      stored_price

drained : Working default_config Now dispatched 2 fetched
drained =
    worked [] batch [] now_world
      (worked [] (first_message Task.dispatch) [] now_world idle refl refl) refl queued

Working-ends_example :
    2 + weights default_config fetched.queue ≤ weights default_config dispatched.queue
Working-ends_example = Working-ends default_config Now drained

abbrev unreachable : Http
unreachable = record { get = λ r. err http_error; decimal = http.decimal }

abbrev down : World
down = record { http = unreachable; engine = memory; now = pos 1_700_000_000 }

abbrev both : List String
both = "btc_usd" ∷ "eth_usd" ∷ []

known : build_sync_market_data_provider default_config ≡ ok deribit
unfolding build_sync_market_data_provider
known = refl

down-Outage : Outage default_config both down
unfolding get_index_price_time fetch in_supported_tickers_set
down-Outage = record {
  engine = memory-IsEngine;
  responds = memory-Responds;
  expected = (refl, (refl, tt));
  no_quote = refl;
  passing = omega arith;
}

commits : (t : Table) → memory.commit t ≡ ok tt
unfolding memory
commits t = refl

up-Healthy : Healthy default_config both now_world
unfolding get_index_price_time fetch in_supported_tickers_set parse_price get floor_million
    floor_div
up-Healthy = record {
  engine = memory-IsEngine;
  responds = memory-Responds;
  commits = commits;
  expected = (refl, (refl, tt));
  quoted = omega arith;
}

fetch_recovers_example :
    (visible : Table) × IsTable visible
    × SameView (price_at visible) (put_all (quotes default_config http both) (price_at rows))
    × (work_through default_config (down ∷ down ∷ down ∷ now_world ∷ []) (only_fetch both 0 rows)
        ≡ record { queue = []; stored = visible })
fetch_recovers_example =
    fetch_recovers default_config both known (down ∷ down ∷ down ∷ []) now_world rows rows-IsTable
      (down-Outage, (down-Outage, (down-Outage, tt))) up-Healthy (omega arith)
