-- ===== src/Tasks/Backfill/Laws.antt =====
-- How `backfill_price_history` ends, and what it has stored.
use deribit_price_collector.Prelude.{
  String, ◌≡◌, refl, ◌∙◌, inl, inr, Bool, true, Option, none, some, List, [], ◌∷◌, All, Bool-cases,
  ◌||◌, if◌then◌else◌,
}
use deribit_price_collector.Prelude.Int.{ℤ}
use deribit_price_collector.Exceptions.{
  Result, ok, err, batch_transient, backfill_failed, is_collection_permanent,
  is_collection_transient, kinds_disjoint, ◌>>=◌, >>=-eq-ok,
}
use deribit_price_collector.Config.{Config}
use deribit_price_collector.Providers.{
  HistoryRange, deribit, range_value, range_of_value, build_sync_market_data_provider,
}
use deribit_price_collector.Providers.Laws.{range_of_value-range_value, range_value-range_of_value}
use deribit_price_collector.Table.{Table}
use deribit_price_collector.Table.Engine.{Engine, IsEngine}
use deribit_price_collector.Table.Unique.{IsTable}
use deribit_price_collector.Repository.{key_stmt}
use deribit_price_collector.Repository.Save.{save_price_runs, save_price-put}
use deribit_price_collector.Client.{Http, get_index_chart_data}
use deribit_price_collector.Tasks.Fetch.{after_commit}
use deribit_price_collector.Tasks.Fetch.Laws.{Responds, Runs}
use deribit_price_collector.Tasks.Backfill.{
  save_points, backfill_ticker, backfill_tickers, handle_backfill, finish, collect_history,
  backfill_price_history,
}
use deribit_price_collector.Tasks.Backfill.Loop.{
  history, Saved, backfill_tickers-Saved, backfill_ticker-Saved,
}

-- What a call has done, by how it ended.
abbrev pub Ended : Config → Http → List String → String → Table → Result (Unit {0}) × Table → Type 0
Ended c http tickers range_name stored (ok _, after) =
    (r : HistoryRange) × (range_value r ≡ range_name)
    × Saved (history c http r tickers) stored after
Ended c http tickers range_name stored (err x, after) = after ≡ stored

module _ (c : Config) (http : Http) (e : Engine) (law : IsEngine e) where
  committed-Ended :
      (tickers : List String) (range_name : String) (r : HistoryRange) (visible stored : Table)
      (done : Result (Unit {0}))
      → range_value r ≡ range_name
      → Saved (history c http r tickers) stored visible
      → Ended c http tickers range_name stored (after_commit done visible stored)
  committed-Ended tickers range_name r visible stored (ok u) h s = (r, h, s)
  committed-Ended tickers range_name r visible stored (err x) h s = refl

  finish-Ended :
      (tickers : List String) (range_name : String) (stored : Table) (done : Result Table)
      → IsTable stored
      → collect_history c http e tickers range_name stored ≡ done
      → Ended c http tickers range_name stored (finish e done stored)
  unfolding collect_history
  finish-Ended tickers range_name stored (ok visible) v h =
      let (r, p, q) = >>=-eq-ok (range_of_value range_name) _ h in
      let (client, p', q') = >>=-eq-ok (build_sync_market_data_provider c) _ q in
      committed-Ended tickers range_name r visible stored (e.commit visible)
        (range_value-range_of_value range_name r p)
        (backfill_tickers-Saved e law c http r tickers stored visible v q')
  finish-Ended tickers range_name stored (err x) v h = refl

  -- `backfill_price_history` is atomic: it returns, its range is one of the six, and every point of
  -- every chart that the client gave is stored, in a valid table; or it raises and stores nothing.
  pub backfill_price_history-Ended :
      (tickers : List String) (range_name : String) (stored : Table)
      → IsTable stored
      → Ended c http tickers range_name stored
          (backfill_price_history c http e tickers range_name stored)
  unfolding backfill_price_history
  backfill_price_history-Ended tickers range_name stored v =
      finish-Ended tickers range_name stored (collect_history c http e tickers range_name stored) v
        refl

-- The first ticker, if there is one, whose chart fails with a transient exception.
abbrev transient_of : String → Result (List (ℤ × ℤ)) → Option String → Option String
transient_of ticker (ok points) rest = rest
transient_of ticker (err x) rest = if is_collection_transient x then some ticker else rest

abbrev pub first_transient : Config → Http → HistoryRange → List String → Option String
first_transient c http r [] = none
first_transient c http r (ticker ∷ tickers) =
    transient_of ticker (get_index_chart_data c http ticker r) (first_transient c http r tickers)

abbrev is_expected : Result (List (ℤ × ℤ)) → Bool
is_expected (ok points) = true
is_expected (err x) = is_collection_permanent x || is_collection_transient x

-- The client's call for each chart gives points or one of the collector's own exceptions.
abbrev pub AllExpected : Config → Http → HistoryRange → List String → Type 0
AllExpected c http r tickers =
    All (λ t. is_expected (get_index_chart_data c http t r) ≡ true) tickers

-- How the loop has to end, by that ticker.
abbrev Loops : Option String → Result Table → Type 0
Loops none done = Runs done
Loops (some ticker) done = done ≡ err (batch_transient (backfill_failed ticker))

module _ (c : Config) (http : Http) (e : Engine) (law : IsEngine e) (up : Responds e) where
  save_points-Runs :
      (ticker : String) (points : List (ℤ × ℤ)) (t : Table)
      → IsTable t
      → Runs (save_points e ticker points t)
  unfolding save_points
  save_points-Runs ticker [] t v = (t, refl)
  save_points-Runs ticker ((price, timestamp) ∷ points) t v =
      let (rows, q) = up (key_stmt e ticker timestamp) t in
      let p = save_price_runs e law ticker price timestamp t rows v q in
      let (w, s) = save_price-put e law ticker price timestamp t _ v p in
      rw p (save_points-Runs ticker points _ w)

  loops :
      (r : HistoryRange) (tickers : List String) (t : Table)
      → IsTable t
      → AllExpected c http r tickers
      → Loops (first_transient c http r tickers) (backfill_tickers c http e r tickers t)
  unfolding backfill_tickers
  loops r [] t v h = (t, refl)
  loops r (ticker ∷ tickers) t v h =
      go (get_index_chart_data c http ticker r) h.0 (λ z w. loops r tickers z w h.1)
    where
      go :
          (chart : Result (List (ℤ × ℤ)))
          → is_expected chart ≡ true
          → ((z : Table)
              → IsTable z
              → Loops (first_transient c http r tickers) (backfill_tickers c http e r tickers z))
          → Loops
              (transient_of ticker chart (first_transient c http r tickers))
              (do z ← backfill_ticker e ticker chart t; backfill_tickers c http e r tickers z)
      go (ok points) k rest =
          let (z, p) = save_points-Runs ticker points t v in
          unfold backfill_ticker in
          rw p (
            rest z
              (backfill_ticker-Saved e law ticker (ok points) t z v
                (unfold backfill_ticker in p)).valid)
      go (err x) k rest = elim (Bool-cases (is_collection_permanent x)) [
        | inl f ↦ unfold backfill_ticker in rw (f, kinds_disjoint x f) (rest t v)
        | inr f ↦ elim (Bool-cases (is_collection_transient x)) [
          | inl g ↦ unfold backfill_ticker in rw (f, g)
          | inr g ↦ cc (rw (f, g) at k)
        ]
      ]

  -- How a backfill of a known range has to end.
  abbrev pub IsEnd :
      HistoryRange → List String → Table → Option String → Result (Unit {0}) × Table → Type 0
  IsEnd r tickers stored none out =
      (visible : Table) × Saved (history c http r tickers) stored visible
      × (out ≡ after_commit (e.commit visible) visible stored)
  IsEnd r tickers stored (some ticker) out =
      out ≡ (err (batch_transient (backfill_failed ticker)), stored)

  IsEnd-of_loop :
      (r : HistoryRange) (tickers : List String) (stored : Table) (o : Option String)
      (done : Result Table)
      → IsTable stored
      → backfill_tickers c http e r tickers stored ≡ done
      → Loops o done
      → IsEnd r tickers stored o (finish e done stored)
  IsEnd-of_loop r tickers stored none done v p (visible, h) =
      rw h (visible, backfill_tickers-Saved e law c http r tickers stored visible v (p ∙ h), refl)
  IsEnd-of_loop r tickers stored (some ticker) done v p h = unfold handle_backfill in rw h

  -- Where the provider is known, the database answers and the client raises only the collector's
  -- exceptions, a backfill of one of the six ranges ends so. If no chart fails with a transient
  -- exception, in the commit of rows that hold every point of the charts on top of what was there; a
  -- ticker that fails for good is passed over. If one does, nothing is stored and the error, which is
  -- transient, names the first such ticker.
  pub backfill_price_history_lem :
      (r : HistoryRange) (tickers : List String) (stored : Table)
      → IsTable stored
      → build_sync_market_data_provider c ≡ ok deribit
      → AllExpected c http r tickers
      → IsEnd r tickers stored
          (first_transient c http r tickers)
          (backfill_price_history c http e tickers (range_value r) stored)
  unfolding backfill_price_history collect_history
  backfill_price_history_lem r tickers stored v known h =
      rw (range_of_value-range_value r, known)
        (IsEnd-of_loop r tickers stored (first_transient c http r tickers) _ v refl
          (loops r tickers stored v h))
