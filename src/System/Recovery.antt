-- ===== src/System/Recovery.antt =====
-- A batch whose first attempts fail: the retries that Celery makes, and what they come to.
use deribit_price_collector.Prelude.{
  ℕ, suc, ◌+◌, ◌≤◌, ◌<◌, String, ◌≡◌, refl, ap, ◌∙◌, true, false, List, [], ◌∷◌, ◌++◌, All, length,
  ltb, arith,
}
use deribit_price_collector.Exceptions.{Exn, ok, err, is_batch_transient, is_collection_transient}
use deribit_price_collector.Config.{Config}
use deribit_price_collector.Providers.{deribit, build_sync_market_data_provider}
use deribit_price_collector.Table.{Table}
use deribit_price_collector.Table.Engine.{IsEngine}
use deribit_price_collector.Table.Unique.{IsTable}
use deribit_price_collector.Table.Unique.Write.{price_at}
use deribit_price_collector.Tasks.Dispatch.{Job}
use deribit_price_collector.Tasks.Fetch.Laws.{
  AllExpected, Responds, expected_end, fetch_price_batch_lem, failed_batch,
}
use deribit_price_collector.Tasks.Fetch.{fetch_price_batch}
use deribit_price_collector.Tasks.Fetch.Loop.{Point, SameView, put_all, quotes, failures}
use deribit_price_collector.System.{
  Task, World, System, run_task, follow_up, options, work, work_through,
}

-- A fetch of the tickers, after so many retries, as the only message.
abbrev pub only_fetch : List String → ℕ → Table → System
only_fetch tickers retries stored = record {
  queue = record { task = Task.run (Job.fetch_price_batch tickers); retries = retries } ∷ [];
  stored = stored;
}

-- A world in which the client gives no quote and fails in a way that may pass.
pub record Outage (c : Config) (tickers : List String) (w : World) : Type 0 where
  pub engine : IsEngine w.engine
  pub responds : Responds w.engine
  pub expected : AllExpected c w.http tickers
  pub no_quote : quotes c w.http tickers ≡ []
  pub passing : 0 < length (failures is_collection_transient c w.http tickers)

-- A world in which it gives one at least, and the database commits.
pub record Healthy (c : Config) (tickers : List String) (w : World) : Type 0 where
  pub engine : IsEngine w.engine
  pub responds : Responds w.engine
  pub commits : (t : Table) → w.engine.commit t ≡ ok tt
  pub expected : AllExpected c w.http tickers
  pub quoted : 0 < length (quotes c w.http tickers)

module _ (c : Config) (tickers : List String)
    (known : build_sync_market_data_provider c ≡ ok deribit) where
  outage_end :
      (w : World) (stored visible : Table) (points : List Point) (ps ts : List (String × Exn))
      → points ≡ []
      → 0 < length ts
      → (x : Exn) × (is_batch_transient x ≡ true)
        × (expected_end w.engine points ps ts visible stored ≡ (err x, stored))
  outage_end w stored visible (p ∷ points) ps ts h k = cc
  outage_end w stored visible [] ps [] h k = absurd (omega arith)
  outage_end w stored visible [] ps (t ∷ ts) h k = (failed_batch ps (t ∷ ts), refl, refl)

  Outage-end :
      (w : World) (stored : Table)
      → IsTable stored
      → Outage c tickers w
      → (x : Exn) × (is_batch_transient x ≡ true)
        × (fetch_price_batch c w.http w.engine tickers stored ≡ (err x, stored))
  Outage-end w stored v o =
      let (visible, valid, same, p) =
        fetch_price_batch_lem c w.http w.engine o.engine o.responds tickers stored v known
          o.expected in
      let (x, k, q) = outage_end w stored visible _ _ _ o.no_quote o.passing in (x, k, p ∙ q)

  -- While there are retries left, an outage changes the number of them and nothing else.
  Outage-work :
      (w : World) (retries : ℕ) (stored : Table)
      → IsTable stored
      → Outage c tickers w
      → ltb retries 3 ≡ true
      → work c w (only_fetch tickers retries stored) ≡ only_fetch tickers (suc retries) stored
  unfolding work run_task follow_up options
  Outage-work w retries stored v o h = let (x, k, p) = Outage-end w stored v o in rw (p, k, h)

  -- With none left, the message is given up.
  Outage-last :
      (w : World) (retries : ℕ) (stored : Table)
      → IsTable stored
      → Outage c tickers w
      → ltb retries 3 ≡ false
      → work c w (only_fetch tickers retries stored) ≡ record { queue = []; stored = stored }
  unfolding work run_task follow_up options
  Outage-last w retries stored v o h = let (x, k, p) = Outage-end w stored v o in rw (p, k, h)

  healthy_end :
      (w : World) (stored visible : Table) (points : List Point) (ps ts : List (String × Exn))
      → ((t : Table) → w.engine.commit t ≡ ok tt)
      → 0 < length points
      → expected_end w.engine points ps ts visible stored ≡ (ok tt, visible)
  healthy_end w stored visible [] ps ts h k = absurd (omega arith)
  healthy_end w stored visible (p ∷ points) ps ts h k = rw (h visible)

  Healthy-work :
      (w : World) (retries : ℕ) (stored : Table)
      → IsTable stored
      → Healthy c tickers w
      → (visible : Table) × IsTable visible
        × SameView (price_at visible) (put_all (quotes c w.http tickers) (price_at stored))
        × (work c w (only_fetch tickers retries stored) ≡ record { queue = []; stored = visible })
  unfolding work run_task follow_up options
  Healthy-work w retries stored v o =
      let (visible, valid, same, p) =
        fetch_price_batch_lem c w.http w.engine o.engine o.responds tickers stored v known
          o.expected in
      let q = healthy_end w stored visible _ _ _ o.commits o.quoted in
      (visible, valid, same, rw (p ∙ q))

  recovers :
      (outages : List World) (w : World) (retries : ℕ) (stored : Table)
      → IsTable stored
      → All (Outage c tickers) outages
      → Healthy c tickers w
      → retries + length outages ≤ 3
      → (visible : Table) × IsTable visible
        × SameView (price_at visible) (put_all (quotes c w.http tickers) (price_at stored))
        × (work_through c (outages ++ w ∷ []) (only_fetch tickers retries stored)
            ≡ record { queue = []; stored = visible })
  unfolding work_through
  recovers [] w retries stored v o h k = Healthy-work w retries stored v h
  recovers (z ∷ outages) w retries stored v o h k =
      let (visible, valid, same, p) =
        recovers outages w (suc retries) stored v o.1 h (omega arith) in
      let first = Outage-work z retries stored v o.0 (ground arith) in
      (visible, valid, same, ap (work_through c (outages ++ w ∷ [])) first ∙ p)

  -- A batch survives up to three outages: if the client gives no quote, for reasons that may pass, in at
  -- most three attempts, and then gives one at least while the database answers, the retries
  -- come to an end with nothing on the queue and, in a valid table, exactly the quotes of that last
  -- attempt on top of what was stored.
  pub fetch_recovers :
      (outages : List World) (w : World) (stored : Table)
      → IsTable stored
      → All (Outage c tickers) outages
      → Healthy c tickers w
      → length outages ≤ 3
      → (visible : Table) × IsTable visible
        × SameView (price_at visible) (put_all (quotes c w.http tickers) (price_at stored))
        × (work_through c (outages ++ w ∷ []) (only_fetch tickers 0 stored)
            ≡ record { queue = []; stored = visible })
  fetch_recovers outages w stored v o h k = recovers outages w 0 stored v o h (omega arith)

  -- It does not survive a fourth: after four attempts in outages the message is gone and nothing is
  -- stored.
  pub fetch_gives_up :
      (w₁ w₂ w₃ w₄ : World) (stored : Table)
      → IsTable stored
      → All (Outage c tickers) (w₁ ∷ w₂ ∷ w₃ ∷ w₄ ∷ [])
      → work_through c (w₁ ∷ w₂ ∷ w₃ ∷ w₄ ∷ []) (only_fetch tickers 0 stored)
        ≡ record { queue = []; stored = stored }
  unfolding work_through
  fetch_gives_up w₁ w₂ w₃ w₄ stored v (a, (b, (d, (e, u)))) =
      ap (λ z. work c w₄ (work c w₃ (work c w₂ z))) (Outage-work w₁ 0 stored v a refl)
      ∙ ap (λ z. work c w₄ (work c w₃ z)) (Outage-work w₂ 1 stored v b refl)
      ∙ ap (work c w₄) (Outage-work w₃ 2 stored v d refl)
      ∙ Outage-last w₄ 3 stored v e refl
