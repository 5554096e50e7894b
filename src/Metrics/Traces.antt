-- ===== src/Metrics/Traces.antt =====
-- The requests of a server, in any interleaving: each starts and later ends.
use deribit_price_collector.Prelude.{ℕ, String, List, [], ◌∷◌, ◌++◌}
use deribit_price_collector.Exceptions.{Result, ok, err}
use deribit_price_collector.Metrics.{RuntimeMetrics, Response, new_metrics, on_request_start, leave}

-- The status that a request is counted under.
abbrev pub status_of : {B : Type 0} → Result (Response B) → ℕ
status_of (ok response) = response.status_code
status_of (err exc) = 500

-- A request that has ended: its path and its status.
abbrev pub Finished : Type 0
Finished = String × ℕ

module _ {F : Type 0} (B : Type 0) (zero_ms : F) (add : F → F → F) where
  -- The states that a server can reach, with the paths of the requests that are under way and the
  -- requests that have ended. Any request under way may be the next to end.
  pub data Reachable : RuntimeMetrics F → List String → List Finished → Type 0 where
    new : Reachable (new_metrics zero_ms add) [] []
    started :
        {m : RuntimeMetrics F} {open_paths : List String} {done : List Finished}
        → (path : String) → Reachable m open_paths done
        → Reachable (on_request_start zero_ms add path m) (path ∷ open_paths) done
    ended :
        {m : RuntimeMetrics F} {done : List Finished}
        → (before : List String) (path : String) (after : List String) (request_id : String)
        → (duration_ms : F) (outcome : Result (Response B))
        → Reachable m (before ++ path ∷ after) done
        → Reachable
            (leave zero_ms add path request_id duration_ms outcome m).1
            (before ++ after)
            ((path, status_of outcome) ∷ done)
