-- ===== src/App/Lifespan.antt =====
-- The start and stop of the application in app/main.py, and the session of a request in app/core/db.py,
-- with the calls to the database library in their order. Logging is left out.
use deribit_price_collector.Prelude.{◌≡◌, refl, ◌⊎◌, inl, inr, List, [], ◌∷◌, ◌++◌}
use deribit_price_collector.Exceptions.{Result, ok, err}

-- A call to the database library, or the place where the generator yields.
pub data Call : Type 0 where
  ping dispose rollback close yield_app yield_session : Call

-- The calls that were made, and how the generator ends.
abbrev pub Run : Type 0
Run = List Call × Result (Unit {0})

-- init_db: an exception of the ping is logged and raised again.
unfoldable pub init_db : Result (Unit {0}) → Run
init_db (ok u) = (ping ∷ [], ok u)
init_db (err exc) = (ping ∷ [], err exc)

-- close_db, in the `finally`: what it raises takes the place of what was raised before.
unfoldable pub close_db : Result (Unit {0}) → Run → Run
close_db (ok u) (calls, result) = (calls ++ dispose ∷ [], result)
close_db (err exc) (calls, result) = (calls ++ dispose ∷ [], err exc)

-- `yield`, while the application runs, if the start succeeded.
abbrev yielded : Call → Run → Result (Unit {0}) → Run
yielded call (calls, ok u) run = (calls ++ call ∷ [], run)
yielded call (calls, err exc) run = (calls, err exc)

-- lifespan, given how the ping, the run of the application and the disposal end.
unfoldable pub lifespan : Result (Unit {0}) → Result (Unit {0}) → Result (Unit {0}) → Run
unfolding init_db close_db
lifespan pinged run disposed = close_db disposed (yielded yield_app (init_db pinged) run)

-- get_async_session, given how the route and the rollback end; closing a session does not raise.
unfoldable pub get_async_session : Result (Unit {0}) → Result (Unit {0}) → Run
get_async_session (ok u) rolled_back = (yield_session ∷ close ∷ [], ok u)
get_async_session (err exc) (ok u) = (yield_session ∷ rollback ∷ close ∷ [], err exc)
get_async_session (err exc) (err later) = (yield_session ∷ rollback ∷ close ∷ [], err later)

-- However the start and the run end, the engine is disposed of, once and last, and the application runs
-- only after a ping that succeeded.
pub lifespan_lem :
    (pinged run disposed : Result (Unit {0}))
    → ((lifespan pinged run disposed).0 ≡ ping ∷ yield_app ∷ dispose ∷ []) × (pinged ≡ ok tt)
      ⊎ ((lifespan pinged run disposed).0 ≡ ping ∷ dispose ∷ [])
unfolding lifespan
lifespan_lem (ok u) run (ok v) = inl (refl, refl)
lifespan_lem (ok u) run (err y) = inl (refl, refl)
lifespan_lem (err x) run (ok v) = inr refl
lifespan_lem (err x) run (err y) = inr refl
