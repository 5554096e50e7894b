-- ===== src/System/Reached.antt =====
-- Every state that the collector reaches, for every order of schedule, deliveries, retries, losses and
-- command line runs.
use deribit_price_collector.Prelude.{
  All-append, String, ◌≡◌, refl, sym, ◌∙◌, ◌⊎◌, inl, inr, some, All,
}
use deribit_price_collector.Prelude.Int.{ℤ}
use mathlib.Core.Path.{subst}
use deribit_price_collector.Prelude.Order.{Member}
use deribit_price_collector.Config.{Config}
use deribit_price_collector.Table.{Table}
use deribit_price_collector.Table.Engine.{IsEngine}
use deribit_price_collector.Table.Unique.{IsTable}
use deribit_price_collector.Table.Unique.Write.{price_at}
use deribit_price_collector.System.{
  Task, World, System, Step, Reach, initial, here, next, scheduled, delivered, expired,
  backfill_tool, reconcile_tool, run_task, beat_schedule,
}
use deribit_price_collector.System.Given.{Gave}
use deribit_price_collector.Tasks.Points.{put_all_cases, put_all_keeps}
use deribit_price_collector.System.Invariant.{Stepped, Step-Stepped, Written}
use deribit_price_collector.System.Queue.{
  IsMessage, IsTask, All-parts, jobs-IsMessage, first_message-IsMessage, reconcile_main-IsJob,
  follow_up-IsMessage,
}

-- Every stored price is one that the client gave, in a world that occurred.
abbrev pub AllGave : Config → (World → Type 0) → Table → Type 0
AllGave c Occurs t =
    (ticker : String) (price timestamp : ℤ)
    → price_at t ticker timestamp ≡ some price
    → (w : World) × Occurs w × Gave c w.http ticker price timestamp

pub record Inv (c : Config) (Occurs : World → Type 0) (s : System) : Type 0 where
  pub valid : IsTable s.stored
  pub given : AllGave c Occurs s.stored
  pub queued : All IsMessage s.queue

scheduled-IsTask :
    (c : Config) (task : Task) (seconds : ℤ)
    → Member (task, seconds) (beat_schedule c)
    → IsTask task
unfolding beat_schedule
scheduled-IsTask c task seconds (inl e) = subst IsTask (λ i. (sym e i).0) tt
scheduled-IsTask c task seconds (inr (inl e)) = subst IsTask (λ i. (sym e i).0) tt
scheduled-IsTask c task seconds (inr (inr m)) = absurd m

module _ (c : Config) (Occurs : World → Type 0) where
  AllGave-Written :
      (w : World) (stored after : Table)
      → Occurs w
      → IsTable stored
      → AllGave c Occurs stored
      → Written c w stored after
      → IsTable after × AllGave c Occurs after
  AllGave-Written w stored after o v g (inl e) = rw e (v, g)
  AllGave-Written w stored after o v g (inr (points, p, s)) = (
    s.valid,
    λ ticker price timestamp h.
        elim (put_all_cases points (price_at stored) ticker timestamp price
          (sym (s.view ticker timestamp) ∙ h)) [
            | inl m ↦ (w, o, p ticker price timestamp m)
            | inr k ↦ g ticker price timestamp k
          ],
  )

  AllGave-Stepped :
      (stored after : Table)
      → IsTable stored
      → AllGave c Occurs stored
      → Stepped c Occurs stored after
      → IsTable after × AllGave c Occurs after
  AllGave-Stepped stored after v g (inl e) = rw e (v, g)
  AllGave-Stepped stored after v g (inr (w, o, p)) = AllGave-Written w stored after o v g p

  Step-queued : {s u : System} → All IsMessage s.queue → Step c Occurs s u → All IsMessage u.queue
  Step-queued {s} v (scheduled task seconds i h) = rw h (
      All-append IsMessage s.queue _ v
        (first_message-IsMessage task (scheduled-IsTask c task seconds i), tt))
  Step-queued {s} v (delivered before m after w o q h) =
      let (a, b, d) = All-parts IsMessage before m after (rw q at v) in
      rw h (
        All-append IsMessage before _ a (
          All-append IsMessage after _ d
            (follow_up-IsMessage c w m s.stored (run_task c w m.task s.stored).0 refl b)))
  Step-queued {s} v (expired before m after q h) =
      let (a, b, d) = All-parts IsMessage before m after (rw q at v) in
      rw h (All-append IsMessage before after a d)
  Step-queued v (backfill_tool tickers range_name w end o q h) = rw h v
  Step-queued {s} v (reconcile_tool tickers lookback w jobs o q h) = rw h (
      All-append IsMessage s.queue _ v (
        jobs-IsMessage jobs
          (reconcile_main-IsJob c w.engine w.now tickers lookback s.stored jobs q)))

some_price : {q r : ℤ} → some q ≡ some r → q ≡ r
some_price h = cc

module _ (c : Config) (Occurs : World → Type 0)
    (law : (w : World) → Occurs w → IsEngine w.engine) where
  -- A step keeps the invariant.
  pub Step-Inv : {s u : System} → Inv c Occurs s → Step c Occurs s u → Inv c Occurs u
  Step-Inv {s} {u} v step =
      let (t, g) =
        AllGave-Stepped c Occurs s.stored u.stored v.valid v.given
          (Step-Stepped c Occurs law v.valid step) in
      record { valid = t; given = g; queued = Step-queued c Occurs v.queued step }

  Reach-Inv : {s u : System} → Inv c Occurs s → Reach c Occurs s u → Inv c Occurs u
  Reach-Inv v here = v
  Reach-Inv v (next r step) = Step-Inv (Reach-Inv v r) step

  -- Whatever the order in which messages are scheduled, delivered, retried, delayed or lost and the tools
  -- are run: if the engine is one in every world that occurs, then in every state that is reached from the
  -- empty one the rows are a valid table, each stored price is one that the client gave for its ticker
  -- and time in a world that occurred, and each message on the queue is retried at most as often as its
  -- options say and names a ticker at least and a range that the provider knows.
  pub reached-Inv : {s : System} → Reach c Occurs initial s → Inv c Occurs s
  reached-Inv r =
      Reach-Inv (record { valid = tt; given = λ ticker price timestamp h. cc; queued = tt }) r

  -- What may stand where a price was stored: the price itself, or one that the client gave later.
  abbrev Kept : String → ℤ → ℤ → ℤ → Type 0
  Kept ticker timestamp price after =
      (after ≡ price) ⊎ ((w : World) × Occurs w × Gave c w.http ticker after timestamp)

  Written-keeps :
      (w : World) (stored after : Table) (ticker : String) (timestamp price : ℤ)
      → Occurs w
      → Written c w stored after
      → price_at stored ticker timestamp ≡ some price
      → (q : ℤ) × (price_at after ticker timestamp ≡ some q) × Kept ticker timestamp price q
  Written-keeps w stored after ticker timestamp price o (inl e) h = (price, rw e h, inl refl)
  Written-keeps w stored after ticker timestamp price o (inr (points, p, s)) h =
      let (q, k) = put_all_keeps points (price_at stored) ticker timestamp price h in
      (
        q,
        s.view ticker timestamp ∙ k,
        elim (put_all_cases points (price_at stored) ticker timestamp q k) [
          | inl m ↦ inr (w, o, p ticker q timestamp m)
          | inr z ↦ inl (some_price (sym z ∙ h))
        ],
      )

  Stepped-keeps :
      (stored after : Table) (ticker : String) (timestamp price : ℤ)
      → Stepped c Occurs stored after
      → price_at stored ticker timestamp ≡ some price
      → (q : ℤ) × (price_at after ticker timestamp ≡ some q) × Kept ticker timestamp price q
  Stepped-keeps stored after ticker timestamp price (inl e) h = (price, rw e h, inl refl)
  Stepped-keeps stored after ticker timestamp price (inr (w, o, p)) h =
      Written-keeps w stored after ticker timestamp price o p h

  Kept-trans :
      (ticker : String) (timestamp price q r : ℤ)
      → Kept ticker timestamp price q
      → Kept ticker timestamp q r
      → Kept ticker timestamp price r
  Kept-trans ticker timestamp price q r k (inr g) = inr g
  Kept-trans ticker timestamp price q r k (inl e) = rw e k

  -- No run loses a price: from a state that satisfies the invariant, if a price is stored for a ticker and
  -- a time, then in every state that is reached there is one too, and it is the same or one that
  -- the client gave for them in a world that occurred.
  pub Reach-keeps :
      {s u : System} (ticker : String) (timestamp price : ℤ)
      → Inv c Occurs s
      → Reach c Occurs s u
      → price_at s.stored ticker timestamp ≡ some price
      → (q : ℤ) × (price_at u.stored ticker timestamp ≡ some q)
        × ((q ≡ price) ⊎ ((w : World) × Occurs w × Gave c w.http ticker q timestamp))
  Reach-keeps ticker timestamp price v here h = (price, h, inl refl)
  Reach-keeps {s} {u} ticker timestamp price v (next {u = mid} r step) h =
      let (q, a, k) = Reach-keeps ticker timestamp price v r h in
      let (z, b, l) =
        Stepped-keeps mid.stored u.stored ticker timestamp q
          (Step-Stepped c Occurs law (Reach-Inv v r).valid step) a in
      (z, b, Kept-trans ticker timestamp price q z k l)
