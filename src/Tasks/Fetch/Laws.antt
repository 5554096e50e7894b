-- ===== src/Tasks/Fetch/Laws.antt =====
-- How `fetch_price_batch` ends, and what it has stored.
use deribit_price_collector.Prelude.{
  ◌+◌, ◌<◌, ◌||◌, String, ◌≡◌, refl, inl, inr, Bool, true, List, [], ◌∷◌, ◌++◌, map, length, ltb,
  ltb→lt, arith, Bool-cases, All,
}
use deribit_price_collector.Prelude.Int.{ℤ}
use deribit_price_collector.Exceptions.{
  Exn, Result, ok, err, batch_permanent, batch_transient, tickers_failed, is_collection_permanent,
  is_collection_transient, is_batch_permanent, is_batch_transient, >>=-eq-ok,
}
use deribit_price_collector.Config.{Config}
use deribit_price_collector.Providers.{deribit, build_sync_market_data_provider}
use deribit_price_collector.Table.{Price, Table, Select}
use deribit_price_collector.Table.Engine.{Engine, IsEngine}
use deribit_price_collector.Table.Unique.{IsTable}
use deribit_price_collector.Table.Unique.Write.{price_at}
use deribit_price_collector.Repository.{key_stmt}
use deribit_price_collector.Repository.Save.{save_price_runs}
use deribit_price_collector.Client.{Http, get_index_price_time}
use deribit_price_collector.Tasks.Fetch.{
  Batch, note_outcome, fetch_ticker, fetch_tickers, is_empty, conclude, handle_batch, empty_batch,
  after_commit, collect, finish, fetch_price_batch,
}
use deribit_price_collector.Tasks.Fetch.Loop.{
  Point, SameView, put_all, quotes, failures, Progress, fetch_tickers-Progress, round,
}

-- A batch ended well: the table is valid, it has the quotes on top of what was there, and there was
-- one at least.
pub record IsStored (points : List Point) (stored after : Table) : Type 0 where
  pub valid : IsTable after
  pub view : SameView (price_at after) (put_all points (price_at stored))
  pub some_point : 0 < length points

abbrev is_batch_error : Exn → Bool
is_batch_error x = is_batch_transient x || is_batch_permanent x

-- What a call that began with the rows `stored` has done, by how it ended.
abbrev pub Ended : List Point → Table → Result (Unit {0}) × Table → Type 0
Ended points stored (ok _, after) = IsStored points stored after
Ended points stored (err x, after) = (after ≡ stored) × (is_batch_error x ≡ true)

handle_batch_kind : (x : Exn) → is_batch_error (handle_batch x) ≡ true
unfolding handle_batch
handle_batch_kind x = ground arith

conclude-Ended :
    (e : Engine) (points : List Point) (ps ts : List (String × Exn)) (b : Batch) (stored : Table)
    → Progress points ps ts (empty_batch stored) b
    → Ended points stored (conclude e b stored)
unfolding conclude
conclude-Ended e points ps ts b stored p = elim (Bool-cases (ltb 0 b.success_count)) [
  | inl f ↦ rw f (committed f (e.commit b.visible))
  | inr f ↦ elim (Bool-cases (is_empty b.transient_failures)) [
    | inl g ↦ rw (f, g) (refl, refl)
    | inr g ↦ rw (f, g) (refl, refl)
  ]
]
  where
    committed :
        ltb 0 b.success_count ≡ true
        → (r : Result (Unit {0})) → Ended points stored (after_commit r b.visible stored)
    committed f (ok u) = record {
      valid = p.valid;
      view = p.view;
      some_point = omega (arith, p.counted, ltb→lt 0 b.success_count f);
    }
    committed f (err x) = (refl, refl)

module _ (c : Config) (http : Http) (e : Engine) (law : IsEngine e) where
  finish-Ended :
      (tickers : List String) (stored : Table) (r : Result Batch)
      → IsTable stored
      → collect c http e tickers stored ≡ r
      → Ended (quotes c http tickers) stored (finish e r stored)
  unfolding collect
  finish-Ended tickers stored (ok b) v h =
      let (client, p, q) = >>=-eq-ok (build_sync_market_data_provider c) _ h in
      conclude-Ended e _ _ _ b stored (fetch_tickers-Progress c http e law tickers _ b v q)
  finish-Ended tickers stored (err x) v h = (refl, handle_batch_kind x)

  -- `fetch_price_batch` is atomic: it returns and has stored every quote that the client gave, one at
  -- least, in a valid table; or it raises one of the two batch errors and has stored nothing.
  pub fetch_price_batch-Ended :
      (tickers : List String) (stored : Table)
      → IsTable stored
      → Ended (quotes c http tickers) stored (fetch_price_batch c http e tickers stored)
  unfolding fetch_price_batch
  fetch_price_batch-Ended tickers stored v =
      finish-Ended tickers stored (collect c http e tickers stored) v refl

-- The client's call for each ticker gives a quote or one of the collector's own exceptions.
abbrev is_expected : Result (ℤ × ℤ) → Bool
is_expected (ok quote) = true
is_expected (err x) = is_collection_permanent x || is_collection_transient x

abbrev pub AllExpected : Config → Http → List String → Type 0
AllExpected c http tickers = All (λ t. is_expected (get_index_price_time c http t) ≡ true) tickers

-- Every query is answered.
abbrev pub Responds : Engine → Type 0
Responds e = (q : Select) (t : Table) → (rows : List Price) × (e.execute q t ≡ ok rows)

abbrev pub Runs {ℓ} : {A : Type ℓ} → Result A → Type ℓ
Runs {A} r = (a : A) × (r ≡ ok a)

-- The error of a batch for which the client gave no quote.
abbrev pub failed_batch : List (String × Exn) → List (String × Exn) → Exn
failed_batch permanent [] =
    batch_permanent (tickers_failed (map (λ (f : String × Exn). f.0) (permanent ++ [])))
failed_batch permanent (f ∷ transient) =
    batch_transient (tickers_failed (map (λ (f : String × Exn). f.0) (permanent ++ f ∷ transient)))

-- How a batch with no unexpected exception has to end.
abbrev pub expected_end :
    Engine
    → List Point
    → List (String × Exn)
    → List (String × Exn)
    → Table
    → Table
    → Result (Unit {0}) × Table
expected_end e [] permanent transient visible stored =
    (err (failed_batch permanent transient), stored)
expected_end e (p ∷ points) permanent transient visible stored =
    after_commit (e.commit visible) visible stored

conclude-expected :
    (e : Engine) (points : List Point) (ps ts : List (String × Exn)) (b : Batch) (stored : Table)
    → Progress points ps ts (empty_batch stored) b
    → conclude e b stored ≡ expected_end e points ps ts b.visible stored
unfolding conclude
conclude-expected e [] ps [] b stored p = rw (p.counted, p.transient, p.permanent)
conclude-expected e [] ps (t ∷ ts) b stored p = rw (p.counted, p.transient, p.permanent)
conclude-expected e (q ∷ points) ps ts b stored p =
    let h : ltb 0 b.success_count ≡ true = rw p.counted (ground arith) in rw h

note_missed-Runs :
    (ticker : String) (b : Batch) (x : Exn)
    → is_expected (err x) ≡ true
    → Runs (note_outcome ticker b (err x))
unfolding note_outcome
note_missed-Runs ticker b x h = elim (Bool-cases (is_collection_permanent x)) [
  | inl f ↦ (record b { permanent_failures = b.permanent_failures ++ (ticker, x) ∷ [] }, rw f)
  | inr f ↦ elim (Bool-cases (is_collection_transient x)) [
    | inl g ↦
        (record b { transient_failures = b.transient_failures ++ (ticker, x) ∷ [] }, rw (f, g))
    | inr g ↦ cc (rw (f, g) at h)
  ]
]

note_saved-Runs :
    (ticker : String) (b : Batch) (out : Price × Table) → Runs (note_outcome ticker b (ok out))
unfolding note_outcome
note_saved-Runs ticker b out =
    (record b { visible = out.1; success_count = b.success_count + 1 }, refl)

module _ (c : Config) (http : Http) (e : Engine) (law : IsEngine e) (up : Responds e) where
  round-Runs :
      (ticker : String) (b : Batch) (r : Result (ℤ × ℤ))
      → IsTable b.visible
      → get_index_price_time c http ticker ≡ r
      → is_expected r ≡ true
      → Runs (note_outcome ticker b (fetch_ticker c http e ticker b.visible))
  unfolding fetch_ticker
  round-Runs ticker b (ok (price, timestamp)) v p h =
      let (rows, q) = up (key_stmt e ticker timestamp) b.visible in
      rw (p, save_price_runs e law ticker price timestamp b.visible rows v q)
        (note_saved-Runs ticker b _)
  round-Runs ticker b (err x) v p h = rw p (note_missed-Runs ticker b x h)

  fetch_tickers-Runs :
      (tickers : List String) (b : Batch)
      → IsTable b.visible
      → AllExpected c http tickers
      → Runs (fetch_tickers c http e tickers b)
  unfolding fetch_tickers
  fetch_tickers-Runs [] b v h = (b, refl)
  fetch_tickers-Runs (ticker ∷ tickers) b v h =
      let (b', p) = round-Runs ticker b (get_index_price_time c http ticker) v refl h.0 in
      let first = round c http e law ticker b b' (get_index_price_time c http ticker) v refl p in
      rw p (fetch_tickers-Runs tickers b' first.valid h.1)

  -- Where the provider is known, the database answers and the client raises only the collector's
  -- exceptions, a batch ends in one of these ways, and in no other. With a quote, in the commit of
  -- rows that hold exactly the quotes on top of what was there, whatever other tickers failed. With
  -- none, in an error that names the failed tickers and stores nothing: a transient one (which Celery
  -- retries) if some failure was transient, and a permanent one if not.
  pub fetch_price_batch_lem :
      (tickers : List String) (stored : Table)
      → IsTable stored
      → build_sync_market_data_provider c ≡ ok deribit
      → AllExpected c http tickers
      → (visible : Table) × IsTable visible
        × SameView (price_at visible) (put_all (quotes c http tickers) (price_at stored))
        × (fetch_price_batch c http e tickers stored
            ≡ expected_end e
                (quotes c http tickers)
                (failures is_collection_permanent c http tickers)
                (failures is_collection_transient c http tickers)
                visible
                stored)
  unfolding fetch_price_batch collect
  fetch_price_batch_lem tickers stored v known h =
      let (b, p) = fetch_tickers-Runs tickers (empty_batch stored) v h in
      let done = fetch_tickers-Progress c http e law tickers (empty_batch stored) b v p in
      (
        b.visible,
        done.valid,
        done.view,
        rw (known, p) (conclude-expected e (quotes c http tickers) _ _ b stored done),
      )
